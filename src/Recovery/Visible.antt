-- ===== src/Recovery/Visible.antt =====
-- After `recover_orchestrator_state` of archivebox/core/recovery_util.py every crawl and snapshot that
-- has work to do is in a queue.
use archive_box.Base.{ℕ, ◌≡◌, refl, Bool, true, ◌&&◌, not, none, arith, if◌then◌else◌, is_none, all}
use archive_box.Queue.Table.{queued, started, sealed, eq_status, update_where, change_if}
use archive_box.Recovery.Rows.{all-update_where, all-true}
use archive_box.Recovery.Woken.{is_queued_visible, is_started_visible, snapshots_visible}
use archive_box.Db.{Crawl, Db}
use archive_box.Recovery.{
  Tables, lost_crawl, due_crawl, has_upload_snapshot, reopened_crawl, is_leased, has_active_child,
  has_due_child, recoverable, waiting_crawl, repair_queued, reopen_uploads, close_orphans,
  unlock_snapshots, unlock_crawls, recover_orchestrator_state,
}

-- a queued crawl has an instant
abbrev queued_visible : Crawl → Bool
queued_visible c = not (eq_status c.status queued && is_none c.retry_at)

-- A crawl that the queue will show: at once, if it is started and a snapshot of it is due.
abbrev pub crawl_visible : ℕ → Db → Crawl → Bool
crawl_visible now db c =
    not (eq_status c.status queued && is_none c.retry_at)
    && not (
        eq_status c.status started
        && (if has_due_child now db c then is_leased now c.retry_at else is_none c.retry_at))

-- the crawls after the repair of the queued ones, and after the uploads
repaired : (now : ℕ) (t : Tables) → all queued_visible (repair_queued now none t).db.crawls ≡ true
unfolding repair_queued
repaired now t =
    all-update_where (λ c. true) queued_visible (lost_crawl none) (due_crawl now) t.db.crawls
      (λ c h. ground arith) (all-true t.db.crawls)

reopened :
    (now : ℕ) (t : Tables)
    → all queued_visible t.db.crawls ≡ true
    → all queued_visible (reopen_uploads now none t).db.crawls ≡ true
unfolding reopen_uploads
reopened now t h =
    all-update_where queued_visible queued_visible
      (λ c. has_upload_snapshot none t c && eq_status c.status sealed) (reopened_crawl now)
      t.db.crawls (λ c k. ground arith) h

closed-crawls : (now : ℕ) (t : Tables) → (close_orphans now none t).db.crawls ≡ t.db.crawls
unfolding close_orphans
closed-crawls now t = refl

unlocked-crawls : (now : ℕ) (t : Tables) → (unlock_snapshots now none t).db.crawls ≡ t.db.crawls
unfolding unlock_snapshots
unlocked-crawls now t = refl

closed_visible :
    (now : ℕ) (t : Tables)
    → all queued_visible
        (close_orphans now none (reopen_uploads now none (repair_queued now none t))).db.crawls
      ≡ true
unfolding close_orphans
closed_visible now t = reopened now (repair_queued now none t) (repaired now t)

module _ (now : ℕ) (db : Db) where
  after_due : Crawl → Bool
  after_due c =
      queued_visible c
      && not (eq_status c.status started && has_due_child now db c && is_leased now c.retry_at)

  after_waiting : Crawl → Bool
  unfolding after_due
  after_waiting c =
      after_due c
      && not (
          eq_status c.status started
          && not (has_due_child now db c)
          && has_active_child db c
          && is_none c.retry_at)

  due_step :
      (c : Crawl)
      → queued_visible c ≡ true
      → after_due
          (change_if (λ c. recoverable now none c && has_due_child now db c) (due_crawl now) c)
        ≡ true
  unfolding after_due
  due_step c h = ground arith

  waiting_step :
      (c : Crawl)
      → after_due c ≡ true
      → after_waiting (
          change_if
            (λ c. recoverable now none c && has_active_child db c && not (has_due_child now db c))
            (waiting_crawl now db)
            c)
        ≡ true
  unfolding after_waiting
  waiting_step c h = ground arith

  finished_step :
      (c : Crawl)
      → after_waiting c ≡ true
      → crawl_visible now db
          (change_if (λ c. recoverable now none c && not (has_active_child db c)) (due_crawl now) c)
        ≡ true
  unfolding after_waiting
  finished_step c h = ground arith

unlocked :
    (now : ℕ) (t : Tables)
    → all queued_visible t.db.crawls ≡ true
    → all (crawl_visible now t.db) (unlock_crawls now none t).db.crawls ≡ true
unfolding unlock_crawls
unlocked now t h =
    let due : Crawl → Bool = λ c. recoverable now none c && has_due_child now t.db c in
    let waiting : Crawl → Bool =
      λ c. recoverable now none c && has_active_child t.db c && not (has_due_child now t.db c) in
    let finished : Crawl → Bool = λ c. recoverable now none c && not (has_active_child t.db c) in
    let first = update_where due (due_crawl now) t.db.crawls in
    let second = update_where waiting (waiting_crawl now t.db) first in
    all-update_where (after_waiting now t.db) (crawl_visible now t.db) finished (due_crawl now)
      second (finished_step now t.db)
      (all-update_where (after_due now t.db) (after_waiting now t.db) waiting
        (waiting_crawl now t.db) first (waiting_step now t.db)
        (all-update_where queued_visible (after_due now t.db) due (due_crawl now) t.db.crawls
          (due_step now t.db) h))

-- After a recovery of all crawls, whatever state the runner that died has left: every queued crawl has
-- an instant; every started crawl has one, and is due if a snapshot of it that is open and not paused is
-- due or has none; every queued snapshot has an instant whose crawl was queued or started before the
-- recovery; and every started snapshot is due that has no running hook process after it, or had a
-- started result before it whose process was not running.
pub recover-visible :
    (rebuild : ℕ → Tables → Tables) (now : ℕ) (t : Tables)
    → let u = recover_orchestrator_state rebuild now none t in
      (all (crawl_visible now u.db) u.db.crawls ≡ true)
      × (all (is_queued_visible t) u.db.snapshots ≡ true)
      × (all (is_started_visible now t u) u.db.snapshots ≡ true)
unfolding recover_orchestrator_state unlock_crawls
recover-visible rebuild now t =
    let closed = close_orphans now none (reopen_uploads now none (repair_queued now none t)) in
    let v = snapshots_visible now t in
    (unlocked now (unlock_snapshots now none closed) (closed_visible now t), v.0, v.1)
