-- ===== src/Services.antt =====
-- What the event handlers of archivebox/services/crawl_service.py write, and
-- `CrawlRunner.finalize_run_state` and `defer_crawl_for_resources` of archivebox/services/runner.py.
-- `clock` gives the readings of `timezone.now()`, a number of its own for each call in the text.
pub mod Kept
pub mod Cancelling
pub mod Reachable
pub mod Completing
use mathlib.Core.Option
use archive_box.Base.{
  ℕ, ◌+◌, Bool, true, false, ◌&&◌, not, Option, none, some, List, [], ◌∷◌, ◌==◌, if◌then◌else◌,
  or_else, lte_option, any, select, ◌||◌,
}
use archive_box.Queue.Table.{
  Status, queued, started, paused, sealed, eq_status, update_where, count_where, find,
}
use archive_box.Queue.{no_changes, move_to, is_in, seconds, active_state_lease_seconds}
use archive_box.Queue
use archive_box.Db.{
  Crawl, Snapshot, Db, runnable_states, open_states, inactive_states, child_in, is_child,
}
use archive_box.Crawls.Lifecycle.{is_finished, seal}
use archive_box.Crawls

-- `Crawl.objects.filter(id=...).exclude(status__in=INACTIVE_STATES).update(...)`
abbrev pub project : Status → Option ℕ → ℕ → Crawl → Crawl
project status at now c = record c { status = status; retry_at = at; modified_at = now }

abbrev pub is_active : ℕ → Crawl → Bool
is_active crawl_id c = c.pk == crawl_id && not (is_in c.status inactive_states)

update_active : ℕ → Status → Option ℕ → ℕ → Db → Db
unfolding update_where
update_active crawl_id status at now db = record db {
  crawls = update_where (is_active crawl_id) (project status at now) db.crawls;
}

unfoldable pub on_crawl_setup : (ℕ → ℕ) → ℕ → Db → Db
unfolding update_active
on_crawl_setup clock crawl_id db =
    update_active crawl_id started (some (clock 0 + seconds active_state_lease_seconds)) (clock 1)
      db

unfoldable pub on_crawl_start : (ℕ → ℕ) → ℕ → Db → Db
unfolding update_active
on_crawl_start clock crawl_id db =
    update_active crawl_id started (some (clock 0 + seconds active_state_lease_seconds)) (clock 1)
      db

unfoldable pub on_crawl_cleanup : (ℕ → ℕ) → ℕ → Db → Db
unfolding update_active
on_crawl_cleanup clock crawl_id db = update_active crawl_id started (some (clock 0)) (clock 1) db

-- A crawl that is gone raises `DoesNotExist`, and nothing is written.
unfoldable pub on_crawl_completed : (ℕ → ℕ) → ℕ → Db → Option Db
unfolding update_active any
on_crawl_completed clock crawl_id db =
    Option.map
      (λ (crawl : Crawl).
        if is_in crawl.status inactive_states
        then db
        else if any (child_in crawl_id open_states) db.snapshots
        then update_active crawl_id started (some (clock 0)) (clock 1) db
        else update_active crawl_id sealed none (clock 0) db)
      (find crawl_id db.crawls)

-- The first of two instants in SQLite's order, where NULL is the least.
earlier : Option ℕ → Option ℕ → Option ℕ
earlier none b = none
earlier (some a) none = none
earlier (some a) (some b) = if lte_option (some a) b then some a else some b

-- `order_by("retry_at", "created_at").values_list("retry_at").first()` of the open children
least_retry_at : Option ℕ → List Snapshot → Option ℕ
unfolding earlier
least_retry_at at [] = at
least_retry_at at (s ∷ ss) = least_retry_at (earlier at s.retry_at) ss

-- Ties in `created_at` do not change the instant.
unfoldable pub next_snapshot_retry : ℕ → List Snapshot → Option ℕ
unfolding least_retry_at select
next_snapshot_retry crawl_id snapshots = elim (select (child_in crawl_id open_states) snapshots) [
  | [] ↦ none
  | s ∷ ss ↦ least_retry_at s.retry_at ss
]

-- `a or b or now`, of nullable instants
abbrev pub first_of_instants : Option ℕ → Option ℕ → ℕ → ℕ
first_of_instants (some a) b now = a
first_of_instants none (some b) now = b
first_of_instants none none now = now

abbrev pub requeue_crawl : ℕ → Option Status → Option ℕ → Crawl → Db → Db
requeue_crawl now status at crawl db = record db {
  crawls =
      (Queue.update_and_requeue now (record no_changes { status = status; retry_at = some at }) true
        crawl db.crawls).rows;
}

-- The crawl as `Crawl.objects.get` loads it. The persona's cleanup, which removes files, is left out.
finish_run : (ℕ → ℕ) → Crawl → Db → Option Db
unfolding is_finished seal next_snapshot_retry
finish_run clock crawl db =
    let at =
      first_of_instants crawl.retry_at (next_snapshot_retry crawl.pk db.snapshots) (clock 0) in
    if is_in crawl.status inactive_states
    then some db
    else if is_finished crawl db
    then (if eq_status crawl.status started
        then Option.map (λ (r : Crawls.Lifecycle.Result). r.db) (seal clock crawl db)
        else some (requeue_crawl (clock 0) (some sealed) none crawl db))
    else if eq_status crawl.status started
    then some (requeue_crawl (clock 1) none (some at) crawl db)
    else some (requeue_crawl (clock 1) (some started) (some at) crawl db)

unfoldable pub finalize_run_state : (ℕ → ℕ) → ℕ → Db → Option Db
unfolding finish_run
finalize_run_state clock crawl_id db = elim (find crawl_id db.crawls) [
  | none ↦ none
  | some crawl ↦ finish_run clock crawl db
]

-- `defer_crawl_for_resources`; `pressure` is the answer of `memory_pressure`, and `excluded` the
-- snapshot ids that do not count
abbrev pub postpone : ℕ → ℕ → Snapshot → Snapshot
postpone at now s = record s { retry_at = some at; modified_at = now }

abbrev pub is_excluded : List ℕ → ℕ → Bool
is_excluded [] k = false
is_excluded (x ∷ xs) k = k == x || is_excluded xs k

abbrev pub is_pending : ℕ → List ℕ → Snapshot → Bool
is_pending crawl_id excluded s =
    child_in crawl_id runnable_states s && not (is_excluded excluded s.pk)

unfoldable pub defer_crawl_for_resources : Bool → List ℕ → ℕ → Crawl → Db → Bool × Db
unfolding any update_where
defer_crawl_for_resources pressure excluded now crawl db =
    let retry_at = now + seconds 2 in
    let held =
      any (is_child crawl.pk) db.snapshots
      && not (any (is_pending crawl.pk excluded) db.snapshots) in
    if not (is_in crawl.status runnable_states) || not pressure || held then (false, db) else (
      true,
      record {
        crawls =
            update_where (λ c. c.pk == crawl.pk && is_in c.status runnable_states)
              (λ c. record c { retry_at = some retry_at; modified_at = now }) db.crawls;
        snapshots =
            update_where (λ s. is_pending crawl.pk excluded s && lte_option s.retry_at now)
              (postpone retry_at now) db.snapshots;
      },
    )
