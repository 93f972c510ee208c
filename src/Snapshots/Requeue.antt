-- ===== src/Snapshots/Requeue.antt =====
-- `Snapshot.queue_for_extraction` of archivebox/core/models.py keeps the parent crawl visible to the
-- runner.
use archive_box.Base.{
  ℕ, ◌≡◌, refl, true, some, List, arith, if◌then◌else◌, eq_option, eq_option_iff,
}
use archive_box.Queue.Table.{find, eq_status, queued, started, IsKeyed}
use archive_box.Queue.{write, move_to, is_in, safe_update}
use archive_box.Queue
use archive_box.Queue.Update.{safe_update_lem}
use archive_box.Db.{Crawl, Snapshot, Db}
use archive_box.Snapshots.{requeue_parent, queue_for_extraction}

-- the row that the requeue of the parent leaves
abbrev pub visible : ℕ → ℕ → Crawl → Crawl
visible now at c = record c {
  status = if eq_status c.status started then started else queued;
  retry_at = some at;
  modified_at = now;
}

requeue_parent_lem :
    (now at stamp : ℕ) (c : Crawl) (t : Db)
    → IsKeyed t.crawls
    → find c.pk t.crawls ≡ some c
    → find c.pk (requeue_parent now (move_to queued (some at)) stamp c t).crawls
      ≡ some (visible stamp at c)
unfolding requeue_parent Queue.update_and_requeue
requeue_parent_lem now at stamp c t keyed found =
    let status = if eq_status c.status started then started else queued in
    let g =
      safe_update_lem stamp (move_to status (some at)) true (λ r. eq_option r.retry_at c.retry_at) c
        c t.crawls keyed found in
    ground (arith, g.written, eq_option_iff c.retry_at c.retry_at)

abbrev pub queued_row : ℕ → ℕ → Snapshot → Snapshot
queued_row now at s = record s { status = queued; retry_at = some at; modified_at = now }

requeue_lem :
    (now at : ℕ) (s : Snapshot) (rows : List Snapshot)
    → IsKeyed rows
    → find s.pk rows ≡ some s
    → let o = Queue.update_and_requeue now (move_to queued (some at)) true s rows in
      (o.done ≡ true)
      × (o.self ≡ queued_row now at s)
      × (find s.pk o.rows ≡ some (queued_row now at s))
unfolding Queue.update_and_requeue
requeue_lem now at s rows keyed found =
    let g =
      safe_update_lem now (move_to queued (some at)) true (λ r. eq_option r.retry_at s.retry_at) s s
        rows keyed found in
    let same : eq_option s.retry_at s.retry_at ≡ true =
      ground (arith, eq_option_iff s.retry_at s.retry_at) in
    (rw g.reported same, rw g.object (rw same refl), rw g.written (rw same refl))

-- A snapshot that is queued for extraction, on objects that are up to date in tables with unique
-- keys, is queued for the instant that was asked for, and its crawl is started, if it was, or queued,
-- and due at that instant.
pub queue_for_extraction-visible :
    (clock : ℕ → ℕ) (at : ℕ) (c : Crawl) (s : Snapshot) (t : Db)
    → IsKeyed t.snapshots
    → IsKeyed t.crawls
    → find s.pk t.snapshots ≡ some s
    → find c.pk t.crawls ≡ some c
    → let r = queue_for_extraction clock (some at) c s t in
      (r.done ≡ true)
      × (find s.pk r.db.snapshots ≡ some (queued_row (clock 1) at s))
      × (find c.pk r.db.crawls ≡ some (visible (clock 3) at c))
unfolding queue_for_extraction
queue_for_extraction-visible clock at c s t keyed keyed_crawls found parent =
    let (won, self, row) = requeue_lem (clock 1) at s t.snapshots keyed found in
    let o = Queue.update_and_requeue (clock 1) (move_to queued (some at)) true s t.snapshots in
    let crawl =
      requeue_parent_lem (clock 2) at (clock 3) c (record t { snapshots = o.rows }) keyed_crawls
        parent in
    simp (won, self) (refl, row, crawl)
