-- ===== src/Runner.antt =====
-- `_run_due_crawl_locked` of archivebox/services/runner.py: what one turn of the runner does with a
-- crawl that is due. `run` is what `run_crawl` does to the tables, which executes plugins; console
-- output and the removal of runtime files are left out. `none` is an exception.
pub mod Waiting
pub mod Visible
pub mod Maintenance
pub mod Turn
pub mod Pending
use mathlib.Core.Option
use archive_box.Base.{
  ℕ, suc, ◌+◌, Bool, true, false, ◌&&◌, ◌||◌, not, Option, none, some, List, [], ◌∷◌, ◌==◌,
  if◌then◌else◌, or_else, lte_option, gt_option, is_none, eq_option, any, select, min,
}
use archive_box.Text.{Text}
use archive_box.Queue.Table.{
  Status, queued, started, paused, sealed, eq_status, update_where, count_where, find,
}
use archive_box.Queue.{
  crawl_class, no_changes, move_to, has_status, is_in, seconds, active_state_lease_seconds,
  safe_update,
}
use archive_box.Queue
use archive_box.Db.{Crawl, Snapshot, Db, runnable_states, open_states, child_in, is_child, wake}
use archive_box.Crawls.Urls.{Decoded}
use archive_box.Crawls.Lifecycle
use archive_box.Crawls.Lifecycle.{is_finished}

-- `refresh_from_db(fields=["status", "retry_at", "modified_at"])`
abbrev pub refreshed : Crawl → Crawl → Crawl
refreshed self row = record self {
  status = row.status;
  retry_at = row.retry_at;
  modified_at = row.modified_at;
}

abbrev pub is_due_child : ℕ → ℕ → Snapshot → Bool
is_due_child crawl_id now s = child_in crawl_id runnable_states s && lte_option s.retry_at now

-- queued snapshots without an instant
abbrev pub is_unlocked : ℕ → Snapshot → Bool
is_unlocked crawl_id s = child_in crawl_id (queued ∷ []) s && is_none s.retry_at

abbrev pub repair : ℕ → ℕ → Db → Db
unfolding update_where
repair now crawl_id db = record db {
  snapshots = update_where (is_unlocked crawl_id) (wake now) db.snapshots;
}

-- the first instant of the open snapshots after `now`
pub next_after : ℕ → List Snapshot → Option ℕ
next_after crawl_id [] = none
next_after crawl_id (s ∷ ss) =
    let rest = next_after crawl_id ss in
    elim s.retry_at [ none ↦ rest | some at ↦ some (elim rest [ none ↦ at | some b ↦ min at b ]) ]

unfoldable pub next_snapshot_retry : ℕ → ℕ → Db → Option ℕ
unfolding next_after select
next_snapshot_retry now crawl_id db =
    next_after crawl_id
      (select (λ s. child_in crawl_id open_states s && gt_option s.retry_at now) db.snapshots)

abbrev pub requeue : ℕ → Option Status → Option ℕ → Crawl → Db → Db
requeue now status at c db = record db {
  crawls =
      (Queue.update_and_requeue now (record no_changes { status = status; retry_at = some at }) true
        c db.crawls).rows;
}

-- a crawl whose snapshots are not due and not all done: it waits for the next of them
unfoldable pub wait_for_children : (ℕ → ℕ) → Crawl → Db → Db
unfolding count_where update_where
wait_for_children clock c db =
    let now = clock 0 in
    let fixed = repair now c.pk db in
    if count_where (is_unlocked c.pk) db.snapshots == 0
    then requeue (clock 1) (some started)
        (some (or_else (next_snapshot_retry now c.pk fixed) (now + seconds 10))) c fixed
    else requeue (clock 1) (some started) (some now) c fixed

-- reload, and advance the lifecycle
abbrev advance : (Text → Decoded) → (ℕ → ℕ) → Crawl → Db → Option (Bool × Db)
advance decode clock c db = elim (find c.pk db.crawls) [
  | none ↦ none
  | some fresh ↦
      Option.map (λ (r : Lifecycle.Result). (true, r.db))
        (Lifecycle.advance_lifecycle decode clock fresh db)
]

-- the lease, and the tables with it
abbrev claimed : ℕ → ℕ → Crawl → Db → Bool × Db
claimed now lock_seconds c db =
    let o = Queue.claim_processing_lock crawl_class now lock_seconds c db.crawls in
    (o.done, record db { crawls = o.rows })

-- a crawl with a due snapshot: the snapshot is the work, and the crawl's lease is renewed
abbrev hold : ℕ → Crawl → Db → Bool × Db
hold now c db =
    let at = some (now + seconds active_state_lease_seconds) in
    let o =
      safe_update now (record (move_to started at) { modified_at = some now }) false
        (has_status started) c db.crawls in
    if eq_status c.status started then (o.done, record db { crawls = o.rows }) else (false, db)

-- a crawl without snapshots
run_fresh : (Text → Decoded) → (ℕ → Db → Db) → (ℕ → ℕ) → ℕ → Crawl → Db → Option (Bool × Db)
unfolding find is_finished Queue.claim_processing_lock Lifecycle.advance_lifecycle
run_fresh decode run clock lock_seconds c db =
    let (won, t) = claimed (clock 0) lock_seconds c db in
    if not won then some (false, t) else elim (find c.pk t.crawls) [
      | none ↦ none
      | some fresh ↦
          if eq_status fresh.status started && is_finished fresh t
          then Option.map (λ (r : Lifecycle.Result). (true, r.db))
              (Lifecycle.advance_lifecycle decode (λ n. clock (suc n)) fresh t)
          else some (true, run c.pk t)
    ]

run_active : (Text → Decoded) → (ℕ → Db → Db) → (ℕ → ℕ) → ℕ → Crawl → Db → Option (Bool × Db)
unfolding any safe_update is_finished wait_for_children run_fresh Queue.claim_processing_lock
run_active decode run clock lock_seconds c db =
    let now = clock 0 in
    let has_snapshots = any (is_child c.pk) db.snapshots in
    let (won, t) = claimed (clock 1) lock_seconds c db in
    let finish = if won then advance decode (λ n. clock (2 + n)) c t else some (false, t) in
    let wait = some (true, wait_for_children clock c db) in
    if not has_snapshots
    then run_fresh decode run (λ n. clock (suc n)) lock_seconds c db
    else if any (is_due_child c.pk now) db.snapshots
    then some (hold now c db)
    else if is_finished c db
    then finish
    else wait

-- a sealed crawl is claimed, cleaned up, and leaves the queue
run_sealed : (ℕ → ℕ) → ℕ → Crawl → Db → Bool × Db
unfolding Queue.claim_for_worker Queue.update_and_requeue
run_sealed clock lock_seconds c db =
    let o = Queue.claim_for_worker (clock 0) lock_seconds c db.crawls in
    let t = record db { crawls = o.rows } in
    if o.done then (true, requeue (clock 1) none none o.self t) else (false, t)

unfoldable pub run_due_crawl :
    (Text → Decoded) → (ℕ → Db → Db) → (ℕ → ℕ) → ℕ → Crawl → Db → Option (Bool × Db)
unfolding find run_active run_sealed
run_due_crawl decode run clock lock_seconds self db = elim (find self.pk db.crawls) [
  | none ↦ some (false, db)
  | some row ↦
      let c = refreshed self row in
      if eq_status row.status paused
      then some (true, db)
      else if is_in row.status runnable_states
      then run_active decode run clock lock_seconds c db
      else if eq_status row.status sealed
      then some (run_sealed clock lock_seconds c db)
      else some (true, requeue (clock 0) none none c db)
]
