-- ===== src/Examples/Lifecycles.antt =====
-- The lifecycles of crawls and snapshots at concrete tables.
use archive_box.Base.{◌≡◌, ◌⊎◌, ◌+◌, refl, true, false, some, [], ◌∷◌, arith}
use archive_box.Text.{Text}
use archive_box.Queue.Table.{queued, started, paused, sealed, find, status_at, eq_status}
use archive_box.Queue.{safe_update}
use archive_box.Queue
use archive_box.Queue.Table
use archive_box.Db.{Snapshot, Db}
use archive_box.Db.Kept.{IsKept-refl}
use archive_box.Crawls.Urls.{Decoded, other}
use archive_box.Crawls.Lifecycle
use archive_box.Crawls.Lifecycle.{not_final}
use archive_box.Crawls.Pausing.{pause-children}
use archive_box.Snapshots
use archive_box.Snapshots.{Reconciled, queue_for_extraction}
use archive_box.Snapshots.Kept.{FinalizeKeeps}
use archive_box.Snapshots.Sealing.{succeeded, tables_of, start_processing_once, reconcile-seals}
use archive_box.Snapshots.Requeue.{queue_for_extraction-visible, visible, queued_row}
use archive_box.Services.Cancelling.{cancel-reconcile}
use archive_box.Services.Reachable.{Reach, Step, crawl_sealed_final, snapshot_sealed_final}
use archive_box.Examples.Data.{
  clock, crawl, snapshot, db, crawls-IsKeyed, snapshots-IsKeyed, found_crawl, found_snapshot,
}

abbrev finalize : Snapshot → Db → Db
finalize s t = t

finalize_keeps : FinalizeKeeps finalize
finalize_keeps s t = IsKept-refl t

abbrev decode : Text → Decoded
decode line = other

-- the crawl is cancelled, and a stale pause comes after it
abbrev cancelled : Db
cancelled = (Lifecycle.cancel clock crawl db).1

abbrev paused_late : Db
paused_late = (Lifecycle.pause clock true crawl cancelled).db

late_pause : Reach finalize decode cancelled paused_late
late_pause = Reach.next Reach.here (Step.crawl_pause clock crawl refl)

cancelled_crawl : status_at 1 cancelled.crawls ≡ some sealed
unfolding Lifecycle.cancel Lifecycle.schedule_child_snapshots_for_sealing find
cancelled_crawl = refl

cancelled_sealed : status_at 8 cancelled.snapshots ≡ some sealed
unfolding Lifecycle.cancel find
cancelled_sealed = refl

crawl_sealed_final_example : status_at 1 paused_late.crawls ≡ some sealed
crawl_sealed_final_example =
    crawl_sealed_final finalize decode finalize_keeps cancelled paused_late 1 late_pause
      cancelled_crawl

snapshot_sealed_final_example : status_at 8 paused_late.snapshots ≡ some sealed
snapshot_sealed_final_example =
    snapshot_sealed_final finalize decode finalize_keeps cancelled paused_late 8 late_pause
      cancelled_sealed

start_processing_once_example :
    let first = Snapshots.start_processing 1000 (snapshot 7 queued) db in
    (succeeded first ≡ true)
    × (status_at 7 (tables_of db first).snapshots ≡ some started)
    × (succeeded (Snapshots.start_processing 1001 (snapshot 7 queued) (tables_of db first)) ≡ false)
start_processing_once_example =
    start_processing_once 1000 1001 (snapshot 7 queued) (snapshot 7 queued) db snapshots-IsKeyed
      found_snapshot refl refl

queue_for_extraction-visible_example :
    let r = queue_for_extraction clock (some 5000) crawl (snapshot 7 queued) db in
    (r.done ≡ true)
    × (find 7 r.db.snapshots ≡ some (queued_row 1001 5000 (snapshot 7 queued)))
    × (find 1 r.db.crawls ≡ some (visible 1003 5000 crawl))
queue_for_extraction-visible_example =
    queue_for_extraction-visible clock 5000 crawl (snapshot 7 queued) db snapshots-IsKeyed
      crawls-IsKeyed found_snapshot found_crawl

cancel-reconcile_example :
    let u = (Lifecycle.cancel clock crawl db).1 in
    (s' : Snapshot) × (find 7 u.snapshots ≡ some s')
    × (r : Reconciled) × (Snapshots.reconcile_parent_lifecycle finalize (λ n. 2000 + n) 60 s' u
        ≡ some r)
    × (r.answer ≡ some true)
    × (status_at 7 r.db.snapshots ≡ some sealed)
cancel-reconcile_example =
    cancel-reconcile finalize clock (λ n. 2000 + n) 60 7 crawl crawl (snapshot 7 queued) db
      finalize_keeps snapshots-IsKeyed found_snapshot found_crawl refl refl (omega arith)

abbrev sealed_crawl : Db
sealed_crawl = record db { crawls = record crawl { status = sealed } ∷ [] }

found_sealed_crawl : find 1 sealed_crawl.crawls ≡ some (record crawl { status = sealed })
unfolding find
found_sealed_crawl = refl

reconcile-seals_example :
    (r : Reconciled) × (Snapshots.reconcile_parent_lifecycle finalize clock 60
        (snapshot 7 queued)
        sealed_crawl
      ≡ some r)
    × (r.answer ≡ some true)
    × (status_at 7 r.db.snapshots ≡ some sealed)
reconcile-seals_example =
    reconcile-seals finalize finalize_keeps clock 60 (snapshot 7 queued)
      (record crawl { status = sealed }) sealed_crawl snapshots-IsKeyed found_snapshot
      found_sealed_crawl refl refl refl

crawl_pauses : (Lifecycle.pause clock true crawl db).done ≡ true
unfolding Lifecycle.pause Queue.pause safe_update Table.count_where
crawl_pauses = refl

pause-children_example :
    ((not_final 1 (snapshot 7 queued) ≡ true)
      × (status_at 7 (Lifecycle.pause clock true crawl db).db.snapshots ≡ some paused))
    ⊎ ((not_final 1 (snapshot 7 queued) ≡ false)
        × (find 7 (Lifecycle.pause clock true crawl db).db.snapshots ≡ some (snapshot 7 queued)))
pause-children_example =
    pause-children clock crawl db 7 (snapshot 7 queued) snapshots-IsKeyed found_snapshot
      crawl_pauses
