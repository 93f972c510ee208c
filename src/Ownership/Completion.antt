-- ===== src/Ownership/Completion.antt =====
-- The completion of a run of archivebox/services/snapshot_service.py:
-- `finalize_completed_snapshot` and `on_SnapshotCompletedEvent`. What `project_discovered_snapshots`
-- and `finalize_output_metadata` do to the tables are arguments, since they read files.
use mathlib.Core.Option
use archive_box.Base.{
  ℕ, zero, suc, ◌+◌, Bool, true, false, ◌&&◌, not, Option, none, some, List, [], ◌∷◌, ◌==◌,
  if◌then◌else◌, eq_option, is_none, all,
}
use archive_box.Text.{Text, is_in}
use archive_box.Queue.Table.{queued, started, sealed, eq_status, update_where, count_where, find}
use archive_box.Db.{Snapshot, Db}
use archive_box.Crawls.Limits.{Reason, timed_out, max_size_reached}
use archive_box.Snapshots.{seal}
use archive_box.Ownership.{State, owner_of, drop_owner}
use archive_box.Text.Names.{stripped}

-- the first download, `save(update_fields=["downloaded_at", "modified_at"])`
abbrev pub downloaded : ℕ → ℕ → Snapshot → Snapshot
downloaded now stamp s = record s {
  modified_at = stamp;
  columns = record s.columns { downloaded_at = some now };
}

unfoldable pub mark_downloaded : (ℕ → ℕ) → Snapshot → Db → Db
unfolding update_where
mark_downloaded clock s db = elim s.columns.downloaded_at [
  | some at ↦ db
  | none ↦ record db {
    snapshots = update_where (λ r. r.pk == s.pk) (downloaded (clock 0) (clock 1)) db.snapshots;
  }
]

abbrev pub ends_crawl : Reason → Bool
ends_crawl max_size_reached = true
ends_crawl timed_out = true
ends_crawl _ = false

abbrev pub closed : ℕ → Snapshot → Snapshot
closed now s = record s { status = sealed; retry_at = none; modified_at = now }

-- the other snapshots that wait, of a crawl that reached its limit
unfoldable pub close_queued : ℕ → Reason → Snapshot → Db → Db
unfolding update_where
close_queued now reason s db =
    if ends_crawl reason
    then record db {
      snapshots =
          update_where
            (λ r.
              r.columns.crawl_id == s.columns.crawl_id
              && (eq_status r.status queued && not (r.pk == s.pk)))
            (closed now) db.snapshots;
    }
    else db

abbrev same_names : List Text → List Text → Bool
unfolding is_in all
same_names a b = all (λ x. is_in x b) a && all (λ x. is_in x a) b

abbrev without_retry : Bool → ℕ → Snapshot → Snapshot
without_retry was_sealed now s = record s {
  retry_at = if was_sealed then none else s.retry_at;
  modified_at = now;
  columns = record s.columns { retry_plugins = [] };
}

-- At most three attempts to take the retried plugins off the configuration, which the update asks to
-- be as it was read. Nothing comes between the read and the update here, so that test holds. A row
-- that is gone is an error.
consume_retry : ℕ → (ℕ → ℕ) → Option ℕ → Bool → List Text → ℕ → Db → Option Db
unfolding find update_where count_where is_in all
consume_retry zero clock owned was_sealed consumed k db = some db
consume_retry (suc attempts) clock owned was_sealed consumed k db =
    let again = consume_retry attempts (λ n. clock (suc n)) owned was_sealed consumed k db in
    let p = λ (s : Snapshot).
      s.pk == k
      && (eq_status s.status sealed
          && (if was_sealed then eq_option s.retry_at owned else is_none s.retry_at)) in
    elim (find k db.snapshots) [
      | none ↦ none
      | some current ↦
          if not (same_names (stripped current.columns.retry_plugins) consumed)
          then some db
          else if count_where p db.snapshots == 0
          then again
          else some (record db {
            snapshots = update_where p (without_retry was_sealed (clock 0)) db.snapshots;
          })
    ]

abbrev pub is_owned : Bool → Option ℕ → Snapshot → Bool
is_owned was_sealed owned s =
    not was_sealed && (eq_status s.status started && eq_option s.retry_at owned)

abbrev pub has_names : List Text → Bool
has_names [] = false
has_names (n ∷ ns) = true

-- the end of `finalize_completed_snapshot`, on the tables after the possible seal
unfoldable pub consume_after : (ℕ → ℕ) → Option ℕ → Bool → List Text → Snapshot → Db → Option Db
unfolding consume_retry
consume_after clock owned was_sealed consumed s db =
    let names = stripped consumed in
    if has_names names && eq_status s.status sealed
    then consume_retry 3 clock owned was_sealed names s.pk db
    else some db

-- The snapshot is the one that was loaded first; `none` is an exception. The index file is left out.
unfoldable pub finalize_completed_snapshot :
    (Snapshot → Db → Db)
    → (ℕ → Db → Db)
    → (ℕ → ℕ)
    → Option ℕ
    → Bool
    → List Text
    → Reason
    → ℕ
    → Db
    → Option Db
unfolding find mark_downloaded close_queued consume_after seal
finalize_completed_snapshot finalize discover clock owned was_sealed consumed reason k db =
    elim (find k db.snapshots) [
      | none ↦ some db
      | some s ↦
          let marked = mark_downloaded clock s (discover k db) in
          let ready = close_queued (clock 2) reason s marked in
          let rest = consume_after (λ n. clock (4 + n)) owned was_sealed consumed in
          if is_owned was_sealed owned s
          then elim (seal finalize (clock 3) s ready) [
            | none ↦ none
            | some r ↦ elim (find k r.db.snapshots) [ none ↦ none | some fresh ↦ rest fresh r.db ]
          ]
          else rest s ready
    ]

-- `on_SnapshotCompletedEvent`; `interrupted` is the answer of the runner's signal state.
unfoldable pub on_snapshot_completed :
    (Snapshot → Db → Db) → (ℕ → Db → Db) → (ℕ → ℕ) → Bool → Reason → ℕ → ℕ → State → Option State
unfolding finalize_completed_snapshot
on_snapshot_completed finalize discover clock interrupted reason parent_id k st =
    elim (owner_of k st.owners) [
      | none ↦ some st
      | some o ↦
          let left = record st { owners = drop_owner k st.owners } in
          if not (o.event_id == parent_id)
          then some st
          else if interrupted
          then some left
          else Option.map (λ db. record left { db = db })
              (finalize_completed_snapshot finalize discover clock o.owned_retry_at o.was_sealed
                o.retry_plugins reason k st.db)
    ]
