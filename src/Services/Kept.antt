-- ===== src/Services/Kept.antt =====
-- The handlers of archivebox/services/crawl_service.py and `defer_crawl_for_resources` of
-- archivebox/services/runner.py keep the rows that are sealed.
use mathlib.Core.Option
use archive_box.Base.{ℕ, refl, Bool, Option, none, some, List, arith, any}
use archive_box.Queue.Table.{Status, started, sealed, find}
use archive_box.Queue.Sealed.{KeepsSealed-refl, update_where-KeepsSealed}
use archive_box.Queue.{is_in}
use archive_box.Db.{Crawl, Db, inactive_states, open_states, child_in}
use archive_box.Db.Kept.{IsKept, IsKept-refl, IsKept-if, Ensures}
use archive_box.Services.{
  update_active, is_active, project, on_crawl_setup, on_crawl_start, on_crawl_cleanup,
  on_crawl_completed, defer_crawl_for_resources,
}

abbrev pub same_db : Db → Db
same_db t = t

update_active-IsKept :
    (crawl_id : ℕ) (status : Status) (at : Option ℕ) (now : ℕ) (t : Db)
    → IsKept t (update_active crawl_id status at now t)
unfolding update_active
update_active-IsKept crawl_id status at now t = record {
  crawls =
      update_where-KeepsSealed (is_active crawl_id) (project status at now) t.crawls (λ r. refl)
        (λ r h. ground arith);
  snapshots = KeepsSealed-refl t.snapshots;
}

pub on_crawl_setup-IsKept :
    (clock : ℕ → ℕ) (crawl_id : ℕ) (t : Db) → IsKept t (on_crawl_setup clock crawl_id t)
unfolding on_crawl_setup
on_crawl_setup-IsKept clock crawl_id t = update_active-IsKept crawl_id started _ (clock 1) t

pub on_crawl_start-IsKept :
    (clock : ℕ → ℕ) (crawl_id : ℕ) (t : Db) → IsKept t (on_crawl_start clock crawl_id t)
unfolding on_crawl_start
on_crawl_start-IsKept clock crawl_id t = update_active-IsKept crawl_id started _ (clock 1) t

pub on_crawl_cleanup-IsKept :
    (clock : ℕ → ℕ) (crawl_id : ℕ) (t : Db) → IsKept t (on_crawl_cleanup clock crawl_id t)
unfolding on_crawl_cleanup
on_crawl_cleanup-IsKept clock crawl_id t = update_active-IsKept crawl_id started _ (clock 1) t

completed_step :
    (clock : ℕ → ℕ) (crawl_id : ℕ) (t : Db) (o : Option Crawl) (f : Crawl → Db)
    → ((c : Crawl) → IsKept t (f c))
    → Ensures same_db t (Option.map f o)
completed_step clock crawl_id t none f h = tt
completed_step clock crawl_id t (some c) f h = h c

pub on_crawl_completed-IsKept :
    (clock : ℕ → ℕ) (crawl_id : ℕ) (t : Db)
    → Ensures same_db t (on_crawl_completed clock crawl_id t)
unfolding on_crawl_completed
on_crawl_completed-IsKept clock crawl_id t =
    completed_step clock crawl_id t (find crawl_id t.crawls) _ λ c.
      IsKept-if same_db t (is_in c.status inactive_states) _ _ (IsKept-refl t) (
        IsKept-if same_db t (any (child_in crawl_id open_states) t.snapshots) _ _
          (update_active-IsKept crawl_id started _ (clock 1) t)
          (update_active-IsKept crawl_id sealed _ (clock 0) t))

pub defer-IsKept :
    (pressure : Bool) (excluded : List ℕ) (now : ℕ) (crawl : Crawl) (t : Db)
    → IsKept t (defer_crawl_for_resources pressure excluded now crawl t).1
unfolding defer_crawl_for_resources
defer-IsKept pressure excluded now crawl t =
    IsKept-if (λ (r : Bool × Db). r.1) t _ _ _ (IsKept-refl t)
      (record {
        crawls = update_where-KeepsSealed _ _ t.crawls (λ r. refl) (λ r h. ground arith);
        snapshots = update_where-KeepsSealed _ _ t.snapshots (λ r. refl) (λ r h. ground arith);
      })
