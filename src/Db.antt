-- ===== src/Db.antt =====
-- The two tables that the lifecycles of archivebox/crawls/models.py and archivebox/core/models.py
-- share, and the related rows of a crawl.
pub mod Kept
use archive_box.Base.{
  ℕ, ◌+◌, Bool, true, false, ◌&&◌, ◌||◌, not, Option, none, some, List, [], ◌∷◌, ltb, ◌==◌,
  gt_option, is_none, select, any,
}
use archive_box.Text.{Text}
use archive_box.Queue.Table.{
  Status, queued, started, paused, sealed, Row, update_where, count_where,
}
use archive_box.Queue.{is_in}

pub record CrawlColumns : Type 0 where
  pub urls : Text
  pub max_depth : ℕ

-- `retry_plugins` is the key `RETRY_PLUGINS` of the column `config`, and `settings` stands for its other
-- keys; 0 is the empty dictionary.
pub record SnapshotColumns : Type 0 where
  pub crawl_id : ℕ
  pub url : Text
  pub depth : ℕ
  pub created_at : ℕ
  pub downloaded_at : Option ℕ
  pub output_size : ℕ
  pub settings : ℕ
  pub retry_plugins : List Text

abbrev pub Crawl : Type 0
Crawl = Row CrawlColumns

abbrev pub Snapshot : Type 0
Snapshot = Row SnapshotColumns

pub record Db : Type 0 where
  pub crawls : List Crawl
  pub snapshots : List Snapshot

abbrev pub runnable_states : List Status
runnable_states = queued ∷ started ∷ []

abbrev pub open_states : List Status
open_states = queued ∷ started ∷ paused ∷ []

abbrev pub inactive_states : List Status
inactive_states = paused ∷ sealed ∷ []

-- `crawl.snapshot_set.filter(status__in=states)`, as a test of a row
abbrev pub child_in : ℕ → List Status → Snapshot → Bool
child_in crawl_id states s = s.columns.crawl_id == crawl_id && is_in s.status states

abbrev pub is_child : ℕ → Snapshot → Bool
is_child crawl_id s = s.columns.crawl_id == crawl_id

-- `.filter(Q(retry_at__isnull=True) | Q(retry_at__gt=now)).update(retry_at=now, modified_at=now)`
-- of the children in the given states: the tables after it, and the number of rows
abbrev pub is_asleep : ℕ → Option ℕ → Bool
is_asleep now at = is_none at || gt_option at now

abbrev pub wake : ℕ → Snapshot → Snapshot
wake now s = record s { retry_at = some now; modified_at = now }

unfoldable pub wake_children : ℕ → ℕ → List Status → Db → Db × ℕ
unfolding update_where count_where
wake_children now crawl_id states db =
    let p = λ (s : Snapshot). child_in crawl_id states s && is_asleep now s.retry_at in
    (record db { snapshots = update_where p (wake now) db.snapshots }, count_where p db.snapshots)
