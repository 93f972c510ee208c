-- ===== src/Recovery.antt =====
-- `recover_orchestrator_state` of archivebox/core/recovery_util.py: the repairs of the tables that a
-- runner makes when it takes over from one that died. The clean-up of processes before it, and the
-- messages after it, are left out.
pub mod Rows
pub mod Woken
pub mod Visible
pub mod Changes
pub mod Uploads
pub mod Statuses
use archive_box.Base.{
  ℕ, Bool, true, false, ◌&&◌, ◌||◌, not, Option, none, some, List, [], ◌∷◌, ◌==◌, if◌then◌else◌,
  or_else, is_none, lte_option, gt_option, any, select, map,
}
use archive_box.Queue.Table.{
  Status, queued, started, paused, sealed, eq_status, update_where, count_where, find,
}
use archive_box.Queue.{is_in}
use archive_box.Db.{Crawl, Snapshot, Db, runnable_states, open_states, child_in, is_child}
use archive_box.Runner.{next_snapshot_retry}

-- the states of `ArchiveResult` that matter here: one that runs, one that failed, and the others
pub data ResultStatus : Type 0 where
  running failed other : ResultStatus

abbrev pub is_running : ResultStatus → Bool
is_running running = true
is_running _ = false

-- A row of `ArchiveResult`: its snapshot, whether it is an upload of the browser extension, its status,
-- and its process.
pub record HookResult : Type 0 where
  pub snapshot_id : ℕ
  pub is_upload : Bool
  pub status : ResultStatus
  pub process : Option ℕ

-- A row of `Process`: whether it is of type `HOOK` and in status `RUNNING`.
pub record Process : Type 0 where
  pub pk : ℕ
  pub is_hook : Bool
  pub is_live : Bool

pub record Tables : Type 0 where
  pub db : Db
  pub results : List HookResult
  pub processes : List Process

-- `{"crawl_id": crawl_id} if crawl_id else {}`
abbrev pub in_scope : Option ℕ → ℕ → Bool
in_scope none k = true
in_scope (some crawl_id) k = k == crawl_id

abbrev pub due_crawl : ℕ → Crawl → Crawl
due_crawl now c = record c { retry_at = some now; modified_at = now }

abbrev pub due_snapshot : ℕ → Snapshot → Snapshot
due_snapshot now s = record s { retry_at = some now; modified_at = now }

abbrev pub set_crawls : (Crawl → Bool) → (Crawl → Crawl) → Tables → Tables
set_crawls p f t = record t { db = record t.db { crawls = update_where p f t.db.crawls } }

abbrev pub set_snapshots : (Snapshot → Bool) → (Snapshot → Snapshot) → Tables → Tables
set_snapshots p f t = record t { db = record t.db { snapshots = update_where p f t.db.snapshots } }

-- the crawl of a snapshot has one of the states
abbrev pub crawl_in : List Status → Snapshot → Db → Bool
crawl_in states s db =
    any (λ (c : Crawl). c.pk == s.columns.crawl_id && is_in c.status states) db.crawls

-- queued rows that no queue shows
abbrev pub lost_crawl : Option ℕ → Crawl → Bool
lost_crawl scope c = eq_status c.status queued && is_none c.retry_at && in_scope scope c.pk

abbrev pub lost_snapshot : Option ℕ → Db → Snapshot → Bool
lost_snapshot scope db s =
    eq_status s.status queued
    && is_none s.retry_at
    && crawl_in runnable_states s db
    && in_scope scope s.columns.crawl_id

unfoldable pub repair_queued : ℕ → Option ℕ → Tables → Tables
repair_queued now scope t =
    let t' = set_crawls (lost_crawl scope) (due_crawl now) t in
    set_snapshots (lost_snapshot scope t'.db) (due_snapshot now) t'

-- sealed snapshots that have uploads of the browser extension and nothing else
abbrev pub uploads_only : List HookResult → ℕ → Bool
uploads_only results k =
    any (λ (r : HookResult). r.is_upload && r.snapshot_id == k) results
    && not (any (λ (r : HookResult). not r.is_upload && r.snapshot_id == k) results)

abbrev pub upload_snapshot : Option ℕ → Tables → Snapshot → Bool
upload_snapshot scope t s =
    uploads_only t.results s.pk
    && eq_status s.status sealed
    && crawl_in (queued ∷ started ∷ sealed ∷ []) s t.db
    && in_scope scope s.columns.crawl_id

abbrev pub reopened_crawl : ℕ → Crawl → Crawl
reopened_crawl now c = record c { status = started; retry_at = some now; modified_at = now }

abbrev pub reopened_snapshot : ℕ → Snapshot → Snapshot
reopened_snapshot now s = record s { status = queued; retry_at = some now; modified_at = now }

abbrev pub has_upload_snapshot : Option ℕ → Tables → Crawl → Bool
has_upload_snapshot scope t c =
    any (λ (s : Snapshot). s.columns.crawl_id == c.pk && upload_snapshot scope t s) t.db.snapshots

unfoldable pub reopen_uploads : ℕ → Option ℕ → Tables → Tables
reopen_uploads now scope t =
    let t' =
      set_crawls (λ c. has_upload_snapshot scope t c && eq_status c.status sealed)
        (reopened_crawl now) t in
    set_snapshots (upload_snapshot scope t') (reopened_snapshot now) t'

-- results that were running, without a process that is
abbrev pub process_is_live : List Process → Option ℕ → Bool
process_is_live processes none = false
process_is_live processes (some k) = any (λ (p : Process). p.pk == k && p.is_live) processes

-- the snapshot with the key `k` is in the scope
abbrev result_in_scope : Option ℕ → Db → ℕ → Bool
result_in_scope none db k = true
result_in_scope (some crawl_id) db k =
    any (λ (s : Snapshot). s.pk == k && s.columns.crawl_id == crawl_id) db.snapshots

abbrev pub is_orphan : Option ℕ → Tables → HookResult → Bool
is_orphan scope t r =
    is_running r.status
    && result_in_scope scope t.db r.snapshot_id
    && not (process_is_live t.processes r.process)

abbrev pub fail_if : (HookResult → Bool) → HookResult → HookResult
fail_if p r = if p r then record r { status = failed } else r

unfoldable pub close_orphans : ℕ → Option ℕ → Tables → Tables
close_orphans now scope t =
    let owner = λ (s : Snapshot).
      any (λ (r : HookResult). r.snapshot_id == s.pk && is_orphan scope t r) t.results
      && eq_status s.status started in
    record (set_snapshots owner (due_snapshot now) t) {
      results = map (fail_if (is_orphan scope t)) t.results;
    }

-- `Q(retry_at__isnull=True) | Q(retry_at__gt=now)`
abbrev pub is_leased : ℕ → Option ℕ → Bool
is_leased now at = is_none at || gt_option at now

abbrev pub has_running_process : Tables → ℕ → Bool
has_running_process t k =
    any
      (λ (p : Process).
        p.is_hook
        && p.is_live
        && any (λ (r : HookResult). r.snapshot_id == k && is_process r.process p.pk) t.results)
      t.processes
  where
    is_process : Option ℕ → ℕ → Bool
    is_process none k = false
    is_process (some j) k = j == k

abbrev pub abandoned : ℕ → Option ℕ → Tables → Snapshot → Bool
abandoned now scope t s =
    eq_status s.status started
    && is_leased now s.retry_at
    && in_scope scope s.columns.crawl_id
    && not (has_running_process t s.pk)

unfoldable pub unlock_snapshots : ℕ → Option ℕ → Tables → Tables
unlock_snapshots now scope t = set_snapshots (abandoned now scope t) (due_snapshot now) t

-- the snapshots that a crawl waits for
abbrev pub has_active_child : Db → Crawl → Bool
has_active_child db c = any (child_in c.pk open_states) db.snapshots

abbrev pub is_due_child : ℕ → ℕ → Snapshot → Bool
is_due_child now k s =
    child_in k open_states s
    && not (eq_status s.status paused)
    && (is_none s.retry_at || lte_option s.retry_at now)

abbrev pub has_due_child : ℕ → Db → Crawl → Bool
has_due_child now db c = any (is_due_child now c.pk) db.snapshots

abbrev pub recoverable : ℕ → Option ℕ → Crawl → Bool
recoverable now scope c =
    eq_status c.status started && is_leased now c.retry_at && in_scope scope c.pk

abbrev pub waiting_crawl : ℕ → Db → Crawl → Crawl
waiting_crawl now db c = record c {
  retry_at = some (or_else (next_snapshot_retry now c.pk db) now);
  modified_at = now;
}

unfoldable pub unlock_crawls : ℕ → Option ℕ → Tables → Tables
unlock_crawls now scope t =
    let due =
      set_crawls (λ c. recoverable now scope c && has_due_child now t.db c) (due_crawl now) t in
    let waiting =
      set_crawls
        (λ c. recoverable now scope c && has_active_child t.db c && not (has_due_child now t.db c))
        (waiting_crawl now t.db) due in
    set_crawls (λ c. recoverable now scope c && not (has_active_child t.db c)) (due_crawl now)
      waiting

abbrev rebuild_for : (ℕ → Tables → Tables) → Option ℕ → Tables → Tables
rebuild_for rebuild none t = t
rebuild_for rebuild (some crawl_id) t = rebuild crawl_id t

-- `rebuild` is what the loop over the hooks of one crawl does to the tables: it reads their files. A
-- recovery of all crawls leaves it out.
unfoldable pub recover_orchestrator_state : (ℕ → Tables → Tables) → ℕ → Option ℕ → Tables → Tables
unfolding repair_queued reopen_uploads close_orphans unlock_snapshots unlock_crawls
recover_orchestrator_state rebuild now scope t =
    let closed = close_orphans now scope (reopen_uploads now scope (repair_queued now scope t)) in
    unlock_crawls now scope (unlock_snapshots now scope (rebuild_for rebuild scope closed))
