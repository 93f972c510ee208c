-- ===== src/Services/Completing.antt =====
-- The end of a crawl's run, `on_CrawlCompletedEvent__save_to_db` of
-- archivebox/services/crawl_service.py.
use archive_box.Base.{
  ℕ, ◌≡◌, refl, ◌∙◌, false, not, Option, none, some, if◌then◌else◌, any, Bool-cases, inl, inr,
}
use archive_box.Queue.Table.{Status, started, sealed, find}
use archive_box.Queue.Table.Keyed.{find-update_where_self}
use archive_box.Queue.{is_in}
use archive_box.Db.{Crawl, Db, open_states, inactive_states, child_in}
use archive_box.Services.{project, update_active, on_crawl_completed}

-- the row that the completion of a run leaves
abbrev pub completed : (ℕ → ℕ) → Crawl → Db → Crawl
completed clock c db =
    if any (child_in c.pk open_states) db.snapshots
    then project started (some (clock 0)) (clock 1) c
    else project sealed none (clock 0) c

update_active-row :
    (status : Status) (at : Option ℕ) (now : ℕ) (c : Crawl) (db : Db)
    → find c.pk db.crawls ≡ some c
    → is_in c.status inactive_states ≡ false
    → find c.pk (update_active c.pk status at now db).crawls ≡ some (project status at now c)
unfolding update_active
update_active-row status at now c db found active =
    find-update_where_self c.pk (λ x. not (is_in x.status inactive_states)) (project status at now)
      db.crawls c (λ r. refl) found
    ∙ rw active refl

update_active-snapshots :
    (status : Status) (at : Option ℕ) (now k : ℕ) (db : Db)
    → (update_active k status at now db).snapshots ≡ db.snapshots
unfolding update_active
update_active-snapshots status at now k db = refl

-- The completion of a run of a crawl that is neither paused nor sealed seals it if none of its
-- snapshots is queued, started or paused, and otherwise leaves it started and due at once; the
-- snapshots stay as they are.
pub on_crawl_completed_lem :
    (clock : ℕ → ℕ) (c : Crawl) (db : Db)
    → find c.pk db.crawls ≡ some c
    → is_in c.status inactive_states ≡ false
    → (u : Db) × (on_crawl_completed clock c.pk db ≡ some u)
      × (find c.pk u.crawls ≡ some (completed clock c db))
      × (u.snapshots ≡ db.snapshots)
unfolding on_crawl_completed
on_crawl_completed_lem clock c db found active =
    elim (Bool-cases (any (child_in c.pk open_states) db.snapshots)) [
      | inl open_child ↦ (
        update_active c.pk started (some (clock 0)) (clock 1) db,
        rw (found, active, open_child) refl,
        rw open_child (update_active-row started (some (clock 0)) (clock 1) c db found active),
        update_active-snapshots started (some (clock 0)) (clock 1) c.pk db,
      )
      | inr all_done ↦ (
        update_active c.pk sealed none (clock 0) db,
        rw (found, active, all_done) refl,
        rw all_done (update_active-row sealed none (clock 0) c db found active),
        update_active-snapshots sealed none (clock 0) c.pk db,
      )
    ]
