-- ===== src/Examples/Turns.antt =====
-- The runner's turn, the sweep of expired rows, and the permissions at concrete rows.
use archive_box.Base.{ℕ, ◌≡◌, refl, inl, inr, true, false, some, List, [], ◌∷◌, any, select, All}
use archive_box.Text.{Text}
use archive_box.Queue.Table.{find, queued}
use archive_box.Db.{Db, is_child}
use archive_box.Crawls.Urls.{Decoded, other}
use archive_box.Crawls.Lifecycle.{is_finished}
use archive_box.Permissions.{
  User, Guarded, permissions_public, permissions_private, can_view_snapshot,
  direct_snapshots_queryset,
}
use archive_box.Permissions.Agreement.{IsChoice, direct_snapshots_queryset-can_view}
use archive_box.Runner.{is_due_child, run_due_crawl}
use archive_box.Runner.Turn.{Calls, run_due_snapshot}
use archive_box.Runner.Turn.Started.{Starts, run_due_snapshot-Starts}
use archive_box.Runner.Turn.Single.{Ensures}
use archive_box.Runner.Turn.Admitted.{run_due_snapshot-IsAdmitted}
use archive_box.Runner.Waiting.{is_lost}
use archive_box.Runner.Visible.{IsWake, waiting, run_due_crawl-visible}
use archive_box.Examples.Data.{
  clock, crawl, snapshot, db, crawls-IsKeyed, found_crawl, snapshots-IsKeyed, found_snapshot,
}

abbrev later_db : Db
later_db = record db { snapshots = record (snapshot 7 queued) { retry_at = some 5000 } ∷ [] }

abbrev decode : Text → Decoded
decode line = other

has_child : any (is_child 1) later_db.snapshots ≡ true
unfolding any
has_child = refl

none_due : any (is_due_child 1 1000) later_db.snapshots ≡ false
unfolding any
none_due = refl

unfinished : is_finished crawl later_db ≡ false
unfolding is_finished any
unfinished = refl

run_due_crawl-visible_example :
    (at : ℕ) × (u : Db) × (run_due_crawl decode (λ k t. t) clock 60 crawl later_db ≡ some (true, u))
    × (find 1 u.crawls ≡ some (waiting 1001 at crawl))
    × IsWake 1 1000 later_db.snapshots at
    × (any (is_lost 1) u.snapshots ≡ false)
run_due_crawl-visible_example =
    run_due_crawl-visible decode (λ k t. t) clock 60 crawl crawl later_db crawls-IsKeyed found_crawl
      refl has_child none_due unfinished

abbrev guest : User
guest = record { is_authenticated = false; is_active = false; is_staff = false }

abbrev guarded : List Guarded
guarded =
    record { id = 1; permissions = permissions_public }
    ∷ record { id = 2; permissions = permissions_private }
    ∷ []

choices : All (λ s. IsChoice s.permissions) guarded
choices = (inl refl, (inr (inr refl), tt))

direct_snapshots_queryset-can_view_example :
    direct_snapshots_queryset guest guarded ≡ select (can_view_snapshot guest) guarded
direct_snapshots_queryset-can_view_example =
    direct_snapshots_queryset-can_view guest guarded choices

abbrev calls : Calls
calls = record {
  finalize = λ s t. t;
  fs_migration_needed = λ s. false;
  migrate = λ k t. t;
  has_running_process = λ k. false;
  crawl_isolation = λ s t. true;
  run_snapshot = λ k names t. t;
  run_crawl = λ k t. t;
}

run_due_snapshot-IsAdmitted_example :
    Ensures clock (snapshot 7 queued) db (run_due_snapshot calls clock 60 7 db)
run_due_snapshot-IsAdmitted_example =
    run_due_snapshot-IsAdmitted calls clock 60 7 (snapshot 7 queued) db (λ k t. refl) found_snapshot

abbrev own_calls : Calls
own_calls = record calls { crawl_isolation = λ s t. false }

run_due_snapshot-Starts_example : Starts own_calls 7 (run_due_snapshot own_calls clock 60 7 db)
run_due_snapshot-Starts_example =
    run_due_snapshot-Starts own_calls clock 60 (snapshot 7 queued) db crawl snapshots-IsKeyed
      found_snapshot refl refl refl (λ x. refl) found_crawl refl refl refl
