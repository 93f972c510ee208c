-- ===== src/Runner/Turn.antt =====
-- `_run_due_snapshot_locked` of archivebox/services/runner.py: what one turn of the runner does with a
-- snapshot that is due. `none` is a `DoesNotExist` of a reload. Console output is left out.
pub mod Due
pub mod Single
pub mod Admitted
pub mod Started
use mathlib.Core.Option
use archive_box.Base.{
  ℕ, suc, ◌+◌, Bool, true, false, ◌&&◌, ◌||◌, not, Option, none, some, List, [], ◌∷◌, ◌==◌,
  if◌then◌else◌, eq_option,
}
use archive_box.Text.{Text}
use archive_box.Text.Names.{stripped}
use archive_box.Queue.Table.{Status, queued, started, paused, sealed, eq_status, find}
use archive_box.Queue.{
  crawl_class, no_changes, Changes, Outcome, has_status, is_in, is_paused, seconds, safe_update,
}
use archive_box.Queue
use archive_box.Db.{SnapshotColumns, Crawl, Snapshot, Db}
use archive_box.Snapshots
use archive_box.Snapshots.{Result, Reconciled, ◌>>=◌, of_outcome}
use archive_box.Runner.Maintenance.{run_snapshot_maintenance}

-- What the turn calls and the tables do not hold: the files of a snapshot, the processes that run, the
-- configuration, and the runs of plugins, with what each does to the tables.
pub record Calls : Type 0 where
  pub finalize : Snapshot → Db → Db
  pub fs_migration_needed : Snapshot → Bool
  pub migrate : ℕ → Db → Db
  pub has_running_process : ℕ → Bool
  pub crawl_isolation : Snapshot → Db → Bool
  pub run_snapshot : ℕ → Option (List Text) → Db → Db
  pub run_crawl : ℕ → Db → Db

-- The run of plugins that a turn starts: of the snapshot, with the selected plugins, or of its crawl.
pub data Run : Type 0 where
  of_snapshot : Option (List Text) → Run
  of_crawl : ℕ → Run

pub record Turn : Type 0 where
  pub answer : Bool
  pub run : Option Run
  pub db : Db

abbrev pub no_run : Bool → Db → Turn
no_run answer db = record { answer = answer; run = none; db = db }

abbrev pub maintained : Bool × Db → Turn
maintained (done, db) = no_run done db

abbrev pub retry_at : Option ℕ → Changes SnapshotColumns
retry_at at = record no_changes { retry_at = some at }

module _ (e : Calls) (clock : ℕ → ℕ) (lock_seconds : ℕ) where
  -- the claim of a sealed snapshot, and of any other
  abbrev pub claim_sealed : Snapshot → Db → Result
  claim_sealed s db = of_outcome (Queue.claim_for_worker (clock 0) lock_seconds s db.snapshots) db

  abbrev pub claim : ℕ → Snapshot → Db → Result
  claim now s db =
      of_outcome (Queue.claim_processing_lock crawl_class now lock_seconds s db.snapshots) db

  abbrev pub migrated : Snapshot → Db → Db
  migrated s db = if e.fs_migration_needed s then e.migrate s.pk db else db

  requested : Snapshot → Db → List Text → Turn
  unfolding run_snapshot_maintenance
  requested s db [] = maintained (run_snapshot_maintenance (λ n. clock (suc n)) s.pk db)
  requested s db (n ∷ ns) = record {
    answer = true;
    run = some (of_snapshot (some (n ∷ ns)));
    db = e.run_snapshot s.pk (some (n ∷ ns)) db;
  }

  retry_or_maintain : Snapshot → Db → Turn
  unfolding requested
  retry_or_maintain s db = requested s db (stripped s.columns.retry_plugins)

  -- A sealed snapshot: the requests for plugins, or maintenance. The uploads that
  -- `finalize_completed_upload_results` closes are rows of another table.
  pub run_sealed : Snapshot → Db → Option Turn
  unfolding retry_or_maintain
  run_sealed s db =
      let c = claim_sealed s db in
      let refused = some (no_run false c.db) in
      let go = find s.pk c.db.snapshots >>= λ owned.
      (let t = migrated owned c.db in
        find s.pk t.snapshots >>= λ fresh.
        if not (eq_status fresh.status sealed) || not (eq_option fresh.retry_at owned.retry_at)
        then some (no_run true t)
        else some (retry_or_maintain fresh t)) in
      if c.done then go else refused

  -- a hook of the snapshot still runs: look again after the lock
  wait_for_process : ℕ → Crawl → Snapshot → Db → Turn
  unfolding Snapshots.update_and_requeue
  wait_for_process now crawl s db =
      no_run true
        (Snapshots.update_and_requeue (λ n. clock (suc (suc n)))
          (retry_at (some (now + seconds lock_seconds))) crawl s db).db

  -- the migration before a run of the crawl, under the snapshot's own lease: whether to go on
  prepare : Snapshot → Db → Option (Bool × Db)
  unfolding safe_update
  prepare s db =
      let c = claim (clock 0) s db in
      let go = find s.pk c.db.snapshots >>= λ claimed.
      (let t = migrated claimed c.db in
        let o =
          safe_update (clock 2) (retry_at (some (clock 1))) true
            (λ (r : Snapshot). has_status claimed.status r && eq_option r.retry_at claimed.retry_at)
            claimed t.snapshots in
        some (o.done, record t { snapshots = o.rows })) in
      if not (e.fs_migration_needed s)
      then some (true, db)
      else if c.done
      then go
      else some (false, c.db)

  -- the run of the whole crawl, under the lease of the crawl
  pub start_crawl : Crawl → Db → Turn
  unfolding Queue.claim_processing_lock
  start_crawl crawl t =
      let o = Queue.claim_processing_lock crawl_class (clock 3) lock_seconds crawl t.crawls in
      let t' = record t { crawls = o.rows } in
      if o.done
      then record { answer = true; run = some (of_crawl crawl.pk); db = e.run_crawl crawl.pk t' }
      else no_run false t'

  -- a reload of the snapshot drops the crawl that was loaded with it
  after_prepare : Snapshot → Bool × Db → Option Turn
  unfolding start_crawl
  after_prepare s (true, t) =
      find s.columns.crawl_id t.crawls >>= λ crawl. some (start_crawl crawl t)
  after_prepare s (false, t) = some (no_run false t)

  run_isolated : Crawl → Snapshot → Db → Option Turn
  unfolding prepare after_prepare wait_for_process
  run_isolated crawl s db =
      if e.has_running_process s.pk
      then some (wait_for_process (clock 0) crawl s db)
      else (prepare s db >>= after_prepare s)

  -- the run of one snapshot
  start_snapshot : Snapshot → Db → Turn
  start_snapshot s db =
      if eq_status s.status started
      then record { answer = true; run = some (of_snapshot none); db = e.run_snapshot s.pk none db }
      else no_run true db

  begin : Snapshot → Db → Option Turn
  unfolding start_snapshot
  begin s db =
      if eq_status s.status queued
      then (Snapshots.start_processing (clock 1) s db >>= λ r.
          some (start_snapshot r.snapshot r.db))
      else some (start_snapshot s db)

  pub run_own : Crawl → Snapshot → Db → Option Turn
  unfolding begin wait_for_process
  run_own crawl s db =
      let c = claim (clock 0) s db in
      let go = find s.pk c.db.snapshots >>= λ owned.
      (if e.has_running_process s.pk
        then some (wait_for_process (clock 1) crawl owned c.db)
        else (find s.pk (migrated owned c.db).snapshots >>= λ fresh.
            begin fresh (migrated owned c.db))) in
      if c.done then go else some (no_run false c.db)

  -- a snapshot that is neither paused nor sealed
  run_active : Snapshot → Db → Option Turn
  unfolding run_isolated run_own
  run_active s db = find s.columns.crawl_id db.crawls >>= λ crawl.
      (if e.crawl_isolation s db then run_isolated crawl s db else run_own crawl s db)

  -- a snapshot that its crawl leaves to the runner
  dispatch : Snapshot → Db → Option Turn
  unfolding run_sealed run_active
  dispatch s db =
      if is_paused crawl_class s
      then some (no_run true (Snapshots.restore_paused_scheduler_marker (clock 0) s db).1)
      else if eq_status s.status sealed
      then run_sealed s db
      else run_active s db

  -- the answer of the reconciliation, the snapshot and the tables after it
  follow : ℕ → Option Bool → Snapshot → Db → Option Turn
  unfolding dispatch run_snapshot_maintenance
  follow k none s db = dispatch s db
  follow k (some false) s db = some (no_run false db)
  follow k (some true) _ db = find k db.snapshots >>= λ s.
      (if eq_status s.status sealed && e.fs_migration_needed s
        then some (maintained (run_snapshot_maintenance clock k db))
        else some (no_run true db))

-- `clock n` are readings of the reconciliation, and `clock (10 + n)` those after it.
turn_of : Calls → (ℕ → ℕ) → ℕ → ℕ → Option Snapshot → Db → Option Turn
unfolding follow
turn_of e clock lock_seconds k none db = some (no_run false db)
turn_of e clock lock_seconds k (some s) db =
    Snapshots.reconcile_parent_lifecycle e.finalize clock lock_seconds s db >>= λ r.
    follow e (λ n. clock (10 + n)) lock_seconds k r.answer r.snapshot r.db

unfoldable pub run_due_snapshot : Calls → (ℕ → ℕ) → ℕ → ℕ → Db → Option Turn
unfolding turn_of
run_due_snapshot e clock lock_seconds k db = turn_of e clock lock_seconds k (find k db.snapshots) db
