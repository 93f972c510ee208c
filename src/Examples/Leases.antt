-- ===== src/Examples/Leases.antt =====
-- The lease of a run at a concrete snapshot.
use archive_box.Base.{◌≡◌, refl, false, some, [], ◌∷◌, arith}
use archive_box.Queue.Table.{find, started, status_at, IsKeyed}
use archive_box.Db.{Db}
use archive_box.Crawls.Limits.{no_reason}
use archive_box.Ownership.{Owner, State}
use archive_box.Ownership.Completion.{finalize_completed_snapshot}
use archive_box.Ownership.Leases.{finalize_completed-stale}
use archive_box.Examples.Data.{clock, snapshot, db}

abbrev owner : Owner
owner = record {
  snapshot_id = 7;
  event_id = 70;
  owned_retry_at = some 900;
  was_sealed = false;
  retry_plugins = [];
}

abbrev running : Db
running = record db { snapshots = snapshot 7 started ∷ [] }

abbrev state : State
state = record { owners = owner ∷ []; db = running }

running-IsKeyed : IsKeyed running.snapshots
unfolding find
running-IsKeyed = (refl, tt)

found_running : find 7 running.snapshots ≡ some (snapshot 7 started)
unfolding find
found_running = refl

finalize_completed-stale_example :
    (u : Db) × (finalize_completed_snapshot
        (λ s t. t)
        (λ k t. t)
        clock
        (some 800)
        false
        []
        no_reason
        7
        running
      ≡ some u)
    × (status_at 7 u.snapshots ≡ status_at 7 running.snapshots)
finalize_completed-stale_example =
    finalize_completed-stale (λ s t. t) (λ k t. t) clock (some 800) false [] no_reason
      (snapshot 7 started) running found_running refl (ground arith)
