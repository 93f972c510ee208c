-- ===== src/Runner/Turn/Started.antt =====
-- A turn of `_run_due_snapshot_locked` of archivebox/services/runner.py starts a queued snapshot that
-- is due.
use archive_box.Base.{
  ℕ, ◌+◌, ◌≡◌, refl, ◌∙◌, Bool, true, false, Option, none, some, arith, if◌then◌else◌,
  eq_option_iff, lte_option,
}
use archive_box.Queue.Table.{queued, started, paused, sealed, eq_status, find, IsKeyed, status_at}
use archive_box.Queue.{crawl_class, is_in, is_paused, seconds, lease}
use archive_box.Queue
use archive_box.Queue.Claims.{claimable, claim-done, claim-rows, claim-IsKeyed}
use archive_box.Db.{Crawl, Snapshot, Db}
use archive_box.Snapshots.{Reconciled, Result, parent_is, ◌>>=◌}
use archive_box.Snapshots
use archive_box.Snapshots.Following.{reconcile-none}
use archive_box.Snapshots.Sealing.{start_processing-started, claim_lock-eq}
use archive_box.Runner.Turn.{
  Calls, of_snapshot, Turn, no_run, run_sealed, run_isolated, start_snapshot, begin, run_own,
  run_active, dispatch, follow, turn_of, run_due_snapshot,
}

-- the turn that runs the plugins of a snapshot on the tables `t`
abbrev pub runs : Calls → ℕ → Db → Turn
runs e k t = record { answer = true; run = some (of_snapshot none); db = e.run_snapshot k none t }

otherwise : {A : Type 0} (b : Bool) (x y : A) → b ≡ false → (if b then x else y) ≡ y
otherwise true x y h = cc
otherwise false x y h = refl

-- The turn runs the plugins of the snapshot, which is started in the tables that they get.
abbrev pub Starts : Calls → ℕ → Option Turn → Type 0
Starts e k o = (d : Db) × (o ≡ some (runs e k d)) × (status_at k d.snapshots ≡ some started)

module _ (e : Calls) (clock : ℕ → ℕ) (lock_seconds : ℕ) where
  -- a queued row that is as the table has it
  begin-Starts :
      (s : Snapshot) (t : Db)
      → IsKeyed t.snapshots
      → find s.pk t.snapshots ≡ some s
      → s.status ≡ queued
      → Starts e s.pk (begin e clock lock_seconds s t)
  unfolding begin start_snapshot
  begin-Starts s t keyed found waits =
      let p = start_processing-started (clock 1) s t keyed found waits in
      let q : eq_status s.status queued ≡ true = ground (arith, waits) in
      (p.0, rw (q, p.1) refl, rw p.2 refl)

  -- the row of `s` while its lease is held
  held : Snapshot → Snapshot
  held = lease (clock 0) (clock 0 + seconds lock_seconds)

  module _ (s : Snapshot) (db : Db) (crawl : Crawl) (keyed : IsKeyed db.snapshots)
      (found : find s.pk db.snapshots ≡ some s) (waits : s.status ≡ queued)
      (due : lte_option s.retry_at (clock 0) ≡ true) (quiet : e.has_running_process s.pk ≡ false)
      (current : (x : Snapshot) → e.fs_migration_needed x ≡ false) where
    run_own-Starts : Starts e s.pk (run_own e clock lock_seconds crawl s db)
    unfolding run_own held
    run_own-Starts =
        let hit : claimable (clock 0) s s ≡ true =
          ground (arith, due, eq_option_iff s.retry_at s.retry_at) in
        let o = Queue.claim_for_worker (clock 0) lock_seconds s db.snapshots in
        let won : o.done ≡ true =
          claim-done (clock 0) lock_seconds s s db.snapshots keyed found ∙ hit in
        let kept : find s.pk o.rows ≡ some (held s) =
          ground (arith, hit, claim-rows (clock 0) lock_seconds s s db.snapshots keyed found) in
        let t = record db { snapshots = o.rows } in
        let p =
          begin-Starts (held s) t (claim-IsKeyed (clock 0) lock_seconds s db.snapshots keyed) kept
            waits in
        (
          p.0,
          rw
              (
                claim_lock-eq (clock 0) lock_seconds s db.snapshots (ground (arith, waits)) due,
                won,
                kept,
                quiet,
                current (held s),
                kept,
              )
              p.1,
          p.2,
        )

    run_active-Starts :
        find s.columns.crawl_id db.crawls ≡ some crawl
        → e.crawl_isolation s db ≡ false
        → Starts e s.pk (run_active e clock lock_seconds s db)
    unfolding run_active
    run_active-Starts here own =
        let p = run_own-Starts in
        (
          p.0,
          rw here (
              otherwise (e.crawl_isolation s db) (run_isolated e clock lock_seconds crawl s db)
                (run_own e clock lock_seconds crawl s db) own
              ∙ p.1),
          p.2,
        )

    dispatch-Starts :
        find s.columns.crawl_id db.crawls ≡ some crawl
        → e.crawl_isolation s db ≡ false
        → Starts e s.pk (dispatch e clock lock_seconds s db)
    unfolding dispatch
    dispatch-Starts here own =
        let p = run_active-Starts here own in
        (
          p.0,
          otherwise (is_paused crawl_class s)
                (some (no_run true (Snapshots.restore_paused_scheduler_marker (clock 0) s db).1))
                (if eq_status s.status sealed
                  then run_sealed e clock lock_seconds s db
                  else run_active e clock lock_seconds s db)
                (ground (arith, waits))
              ∙ otherwise (eq_status s.status sealed) (run_sealed e clock lock_seconds s db)
                  (run_active e clock lock_seconds s db) (ground (arith, waits))
              ∙ p.1,
          p.2,
        )

-- In a table of snapshots with unique keys, a turn for a queued snapshot starts it and runs its plugins
-- on the tables in which it is started, if it is due when it is claimed, its crawl is in the tables and
-- neither sealed nor paused, no hook of it still runs, its files need no migration, and the browser is
-- not shared by the crawl.
pub run_due_snapshot-Starts :
    (e : Calls) (clock : ℕ → ℕ) (lock_seconds : ℕ) (s : Snapshot) (db : Db) (crawl : Crawl)
    → IsKeyed db.snapshots
    → find s.pk db.snapshots ≡ some s
    → s.status ≡ queued
    → lte_option s.retry_at (clock 10) ≡ true
    → e.has_running_process s.pk ≡ false
    → ((x : Snapshot) → e.fs_migration_needed x ≡ false)
    → find s.columns.crawl_id db.crawls ≡ some crawl
    → e.crawl_isolation s db ≡ false
    → eq_status crawl.status sealed ≡ false
    → eq_status crawl.status paused ≡ false
    → Starts e s.pk (run_due_snapshot e clock lock_seconds s.pk db)
unfolding run_due_snapshot turn_of follow
run_due_snapshot-Starts e clock lock_seconds s db crawl keyed found waits due quiet current here own
      open_ awake =
    let p =
      dispatch-Starts e (λ n. clock (10 + n)) lock_seconds s db crawl keyed found waits due quiet
        current here own in
    let left =
      reconcile-none e.finalize clock lock_seconds s db (rw (parent_is, here) open_)
        (rw (parent_is, here) awake) in
    (p.0, rw (found, left) p.1, p.2)
