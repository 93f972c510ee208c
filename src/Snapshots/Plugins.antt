-- ===== src/Snapshots/Plugins.antt =====
-- `Snapshot.schedule_plugin_run` of archivebox/core/models.py: a request for plugins is added to the
-- configuration of the snapshot by a guarded update, which is tried again if another writer changed the
-- row in between.
pub mod Requests
use archive_box.Base.{
  ℕ, zero, suc, ◌+◌, Bool, true, false, ◌&&◌, not, Option, none, some, List, [], ◌∷◌, ◌++◌, ◌==◌,
  if◌then◌else◌, or_else, eq_option,
}
use archive_box.Text.{Text}
use archive_box.Text.Names.{stripped, sorted_set, eq_names}
use archive_box.Queue.Table.{
  Status, queued, started, sealed, eq_status, update_where, count_where, find,
}
use archive_box.Queue.{no_changes, move_to, is_in}
use archive_box.Queue
use archive_box.Db.{SnapshotColumns, Crawl, Snapshot, Db, runnable_states}

-- `True` or `False`; `DoesNotExist`; and the `RuntimeError` after the last attempt
pub data Answer : Type 0 where
  returned : Bool → Answer
  does_not_exist : Answer
  changed_repeatedly : Answer

-- the guard of the update: the columns that were read are still there
abbrev pub as_read : Snapshot → Snapshot → Bool
as_read current r =
    (eq_names r.columns.retry_plugins current.columns.retry_plugins
      && r.columns.settings == current.columns.settings)
    && (eq_status r.status current.status && eq_option r.retry_at current.retry_at)

abbrev pub next_status : Status → Status
next_status status = if eq_status status sealed then status else queued

-- the pending names and the new ones
abbrev pub union : List Text → Snapshot → List Text
union names current = sorted_set (stripped current.columns.retry_plugins ++ names)

abbrev pub with_request : List Text → ℕ → ℕ → Snapshot → Snapshot → Snapshot
with_request names retry_at now current r = record r {
  status = next_status current.status;
  retry_at = some retry_at;
  modified_at = now;
  columns = record r.columns {
    retry_plugins = union names current;
    settings = current.columns.settings;
  };
}

-- the parent crawl, as it was read with the snapshot, becomes visible to the runner
wake_parent : ℕ → ℕ → Crawl → Db → Db
unfolding Queue.update_and_requeue
wake_parent retry_at now crawl db =
    let status = if eq_status crawl.status started then started else queued in
    record db {
      crawls =
          (Queue.update_and_requeue now (move_to status (some retry_at)) true crawl db.crawls).rows;
    }

-- the update, and what follows it if it matched
requested : List Text → ℕ → (ℕ → ℕ) → Snapshot → Crawl → Db → Db
unfolding update_where wake_parent
requested names retry_at clock current crawl db =
    let p = λ (r : Snapshot). r.pk == current.pk && as_read current r in
    let written = record db {
      snapshots = update_where p (with_request names retry_at (clock 0) current) db.snapshots;
    } in
    if is_in (next_status current.status) runnable_states
    then wake_parent retry_at (clock 1) crawl written
    else written

unfoldable pub try_request : List Text → ℕ → (ℕ → ℕ) → Snapshot → Crawl → Db → Bool × Db
unfolding count_where requested
try_request names retry_at clock current crawl db =
    if count_where (λ (r : Snapshot). r.pk == current.pk && as_read current r) db.snapshots == 0
    then (false, db)
    else (true, requested names retry_at clock current crawl db)

abbrev pub after_try : Bool × Db → (Db → Answer × Db) → Answer × Db
after_try (true, t) again = (returned true, t)
after_try (false, t) again = again t

-- `others n` is what other writers do between the read and the update, with `n` attempts left after
-- it, and `clock n` gives the readings of the clock there.
attempts : List Text → ℕ → (ℕ → Db → Db) → (ℕ → ℕ → ℕ) → ℕ → ℕ → Db → Answer × Db
unfolding find try_request
attempts names retry_at others clock k zero db = (changed_repeatedly, db)
attempts names retry_at others clock k (suc n) db = elim (find k db.snapshots) [
  | none ↦ (does_not_exist, db)
  | some current ↦ elim (find current.columns.crawl_id db.crawls) [
    | none ↦ (does_not_exist, db)
    | some crawl ↦
        after_try (try_request names retry_at (clock n) current crawl (others n db))
          (attempts names retry_at others clock k n)
  ]
]

abbrev pub max_attempts : ℕ
max_attempts = 8

-- `sorted({name.strip() for name in plugins if name.strip()})`
abbrev pub plugin_names : List Text → List Text
plugin_names plugins = sorted_set (stripped plugins)

abbrev nothing_to_run : List Text → Bool
nothing_to_run [] = true
nothing_to_run (n ∷ ns) = false

-- `now` is the default of `when`
unfoldable pub schedule_plugin_run :
    List Text → Option ℕ → ℕ → (ℕ → Db → Db) → (ℕ → ℕ → ℕ) → ℕ → Db → Answer × Db
unfolding attempts
schedule_plugin_run plugins when now others clock k db =
    let names = plugin_names plugins in
    let tried = attempts names (or_else when now) others clock k max_attempts db in
    if nothing_to_run names then (returned false, db) else tried
