-- ===== src/Crawls/Lifecycle.antt =====
-- The lifecycle of `Crawl` (archivebox/crawls/models.py). A method takes the crawl as it was loaded
-- and the tables. `clock` gives the readings of `timezone.now()`, a number of its own for each call
-- in the text. A result `none` is a `DoesNotExist` of `refresh_from_db`, with nothing written.
use mathlib.Core.Option
use archive_box.Base.{
  ℕ, suc, ◌+◌, Bool, true, false, ◌&&◌, not, Option, none, some, List, [], ◌∷◌, ◌==◌, if◌then◌else◌,
  or_else, select, any,
}
use archive_box.Text.{Text}
use archive_box.Queue.Table.{queued, started, paused, sealed, eq_status, update_where, find}
use archive_box.Queue.{
  crawl_class, Outcome, Changes, no_changes, move_to, has_status, is_in, seconds, safe_update,
  refresh_from_db,
}
use archive_box.Queue
use archive_box.Db.{
  CrawlColumns, Crawl, Snapshot, Db, runnable_states, open_states, child_in, is_child,
  wake_children,
}
use archive_box.Crawls.Urls.{Decoded, can_start}

-- What a method returns, the crawl after it, and the tables after it.
pub record Result : Type 0 where
  pub done : Bool
  pub crawl : Crawl
  pub db : Db

abbrev pub of_outcome : Outcome CrawlColumns → Db → Result
of_outcome o db = record { done = o.done; crawl = o.self; db = record db { crawls = o.rows } }

-- `for snapshot in snapshot_set.exclude(status__in=FINAL_STATES): snapshot.pause()`, the rows as the
-- query loaded them
unfoldable pub pause_children : (ℕ → ℕ) → List Snapshot → List Snapshot → List Snapshot
unfolding Queue.pause
pause_children clock [] t = t
pause_children clock (s ∷ ss) t =
    pause_children (λ n. clock (suc n)) ss (Queue.pause crawl_class (clock 0) true s t).rows

unfoldable pub not_final : ℕ → Snapshot → Bool
not_final crawl_id s = is_child crawl_id s && not (is_in s.status (sealed ∷ []))

unfoldable pub pause : (ℕ → ℕ) → Bool → Crawl → Db → Result
unfolding pause_children Queue.pause not_final select
pause clock save self db =
    let r = of_outcome (Queue.pause crawl_class (clock 0) save self db.crawls) db in
    if r.done && save
    then record r {
      db = record r.db {
        snapshots =
            pause_children (λ n. clock (suc n)) (select (not_final self.pk) db.snapshots)
              db.snapshots;
      };
    }
    else r

-- the update of `resume`'s children
abbrev pub requeue_at : ℕ → ℕ → Snapshot → Snapshot
requeue_at at now s = record s { status = queued; retry_at = some at; modified_at = now }

unfoldable pub resume : (ℕ → ℕ) → Option ℕ → Bool → Crawl → Db → Result
unfolding Queue.resume update_where
resume clock when save self db =
    let r = of_outcome (Queue.resume crawl_class when (clock 0) (clock 1) save self db.crawls) db in
    if r.done
    then record r {
      db = record r.db {
        snapshots =
            update_where (child_in self.pk (paused ∷ []))
              (requeue_at (or_else when (clock 2)) (clock 3)) db.snapshots;
      };
    }
    else r

unfoldable pub schedule_child_snapshots_for_sealing : ℕ → Crawl → Db → Db × ℕ
unfolding wake_children
schedule_child_snapshots_for_sealing now self db = wake_children now self.pk open_states db

unfoldable pub schedule_child_snapshots_for_pause : ℕ → Crawl → Db → Db × ℕ
unfolding wake_children
schedule_child_snapshots_for_pause now self db = wake_children now self.pk runnable_states db

abbrev pub seal_at : ℕ → Crawl → Crawl
seal_at now c = record c { status = sealed; retry_at = some now; modified_at = now }

-- `clock 0` is `now`, and `clock 1` the instant of the scheduled children
unfoldable pub cancel : (ℕ → ℕ) → Crawl → Db → Crawl × Db
unfolding schedule_child_snapshots_for_sealing update_where
cancel clock self db =
    let db' = (schedule_child_snapshots_for_sealing (clock 1) self db).0 in
    (
      record self { status = sealed; retry_at = some (clock 0) },
      record db' {
        crawls =
            update_where (λ c. c.pk == self.pk && not (eq_status c.status sealed))
              (seal_at (clock 0)) db'.crawls;
      },
    )

unfoldable pub has_finished_snapshots : Crawl → Db → Bool
unfolding any
has_finished_snapshots self db =
    any (is_child self.pk) db.snapshots
    && not (any (λ s. is_child self.pk s && not (eq_status s.status sealed)) db.snapshots)

unfoldable pub is_finished : Crawl → Db → Bool
unfolding any
is_finished self db =
    if not (any (is_child self.pk) db.snapshots)
    then true
    else if any (child_in self.pk open_states) db.snapshots
    then false
    else true

unfoldable pub mark_started : (ℕ → ℕ) → Crawl → Db → Result
unfolding safe_update
mark_started clock self db =
    of_outcome
      (safe_update (clock 1) (move_to started (some (clock 0 + seconds 2))) true (has_status queued)
        self db.crawls)
      db

-- `cleanup_runtime`, which removes files only, is left out.
unfoldable pub seal : (ℕ → ℕ) → Crawl → Db → Option Result
unfolding safe_update schedule_child_snapshots_for_sealing
seal clock self db =
    let now = clock 0 in
    let changes = record (move_to sealed none) { modified_at = some now } in
    let o =
      safe_update now changes false (λ c. is_in c.status (queued ∷ started ∷ sealed ∷ [])) self
        db.crawls in
    let db' = record db { crawls = o.rows } in
    if o.done
    then some (record {
      done = true;
      crawl = record self { status = sealed; retry_at = none; modified_at = now };
      db = (schedule_child_snapshots_for_sealing (clock 1) self db').0;
    })
    else Option.map (λ c. record { done = false; crawl = c; db = db' }) (find self.pk db'.crawls)

unfoldable pub advance_lifecycle : (Text → Decoded) → (ℕ → ℕ) → Crawl → Db → Option Result
unfolding seal mark_started is_finished has_finished_snapshots can_start
advance_lifecycle decode clock self db =
    let stay = some (record { done = false; crawl = self; db = db }) in
    if eq_status self.status paused
    then stay
    else if eq_status self.status queued
    then (if has_finished_snapshots self db
        then seal clock self db
        else if not (can_start decode self.columns.urls)
        then stay
        else some (mark_started clock self db))
    else if eq_status self.status started && is_finished self db
    then seal clock self db
    else stay
