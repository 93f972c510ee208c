-- ===== src/Snapshots.antt =====
-- The lifecycle of `Snapshot` (archivebox/core/models.py). A method takes the snapshot as it was
-- loaded and the tables. `clock` gives the readings of `timezone.now()`, a number of its own for
-- each call in the text. `none` as a whole result is a `DoesNotExist` of `refresh_from_db`.
pub mod Kept
pub mod Sealing
pub mod Requeue
pub mod Plugins
pub mod Following
use mathlib.Core.Option
use archive_box.Base.{
  ℕ, suc, ◌+◌, Bool, true, false, ◌&&◌, not, Option, none, some, List, [], ◌∷◌, ◌==◌, if◌then◌else◌,
  or_else, eq_option,
}
use archive_box.Text.{is_empty}
use archive_box.Queue.Table.{
  Status, queued, started, paused, sealed, eq_status, update_where, count_where, find,
}
use archive_box.Queue.{
  crawl_class, Outcome, Changes, no_changes, move_to, has_status, is_in, seconds, safe_update,
  refresh_from_db, retry_at_max, active_state_lease_seconds,
}
use archive_box.Queue
use archive_box.Db.{SnapshotColumns, Crawl, Snapshot, Db, runnable_states, open_states}

infixl 5 ◌>>=◌
abbrev pub ◌>>=◌ : {A B : Type 0} → Option A → (A → Option B) → Option B
none >>= f = none
some a >>= f = f a

-- What a method returns, the snapshot after it, and the tables after it.
pub record Result : Type 0 where
  pub done : Bool
  pub snapshot : Snapshot
  pub db : Db

abbrev pub of_outcome : Outcome SnapshotColumns → Db → Result
of_outcome o db = record { done = o.done; snapshot = o.self; db = record db { snapshots = o.rows } }

-- `Snapshot.update_and_requeue(**changes)`; `crawl` is the related object of the snapshot. The
-- parent of work that is not final becomes visible to the runner.
requeue_parent : ℕ → Changes SnapshotColumns → ℕ → Crawl → Db → Db
unfolding Queue.update_and_requeue
requeue_parent now changes stamp crawl db =
    let status = if eq_status crawl.status started then started else queued in
    let at = or_else (or_else changes.retry_at none) now in
    record db {
      crawls =
          (Queue.update_and_requeue stamp (move_to status (some at)) true crawl db.crawls).rows;
    }

unfoldable pub update_and_requeue :
    (ℕ → ℕ) → Changes SnapshotColumns → Crawl → Snapshot → Db → Result
unfolding Queue.update_and_requeue requeue_parent
update_and_requeue clock changes crawl self db =
    let r = of_outcome (Queue.update_and_requeue (clock 0) changes true self db.snapshots) db in
    let next_status = or_else changes.status r.snapshot.status in
    if not r.done
    then r
    else if not (is_in next_status runnable_states)
    then r
    else record r { db = requeue_parent (clock 1) changes (clock 2) crawl r.db }

-- `clock 0` is the default of `when`
unfoldable pub queue_for_extraction : (ℕ → ℕ) → Option ℕ → Crawl → Snapshot → Db → Result
unfolding update_and_requeue
queue_for_extraction clock when crawl self db =
    update_and_requeue (λ n. clock (suc n)) (move_to queued (some (or_else when (clock 0)))) crawl
      self db

abbrev pub park : ℕ → Snapshot → Snapshot
park now s = record s { retry_at = some retry_at_max; modified_at = now }

unfoldable pub restore_paused_scheduler_marker : ℕ → Snapshot → Db → Snapshot × Db
unfolding update_where
restore_paused_scheduler_marker now self db = (
  record self { status = paused; retry_at = some retry_at_max },
  record db {
    snapshots = update_where (λ s. s.pk == self.pk && has_status paused s) (park now) db.snapshots;
  },
)

abbrev pub move : Status → Option ℕ → ℕ → Snapshot → Snapshot
move status at now s = record s { status = status; retry_at = at; modified_at = now }

-- `filter(pk=..., retry_at=self.retry_at, <states>).update(...)`, then `refresh_from_db`
unfoldable pub transition : ℕ → List Status → Status → Option ℕ → Snapshot → Db → Option Result
unfolding update_where count_where find
transition now states status at self db =
    let p = λ (s : Snapshot).
      s.pk == self.pk && (eq_option s.retry_at self.retry_at && is_in s.status states) in
    let rows = update_where p (move status at now) db.snapshots in
    let won = count_where p db.snapshots == 1 in
    Option.map (λ s. record { done = won; snapshot = s; db = record db { snapshots = rows } })
      (find self.pk rows)

unfoldable pub start_processing : ℕ → Snapshot → Db → Option Result
unfolding transition
start_processing now self db =
    transition now (queued ∷ []) started (some (now + seconds active_state_lease_seconds)) self db

-- What `finalize_output_metadata` does to the tables is an argument: it reads the files.
unfoldable pub seal : (Snapshot → Db → Db) → ℕ → Snapshot → Db → Option Result
unfolding transition
seal finalize now self db =
    if eq_status self.status sealed
    then some (record { done = true; snapshot = self; db = db })
    else do
      r ← transition now open_states sealed none self db
      some (if r.done then record r { db = finalize r.snapshot r.db } else r)

unfoldable pub advance_lifecycle : ℕ → Snapshot → Db → Option Result
unfolding start_processing
advance_lifecycle now self db =
    let stay = some (record { done = false; snapshot = self; db = db }) in
    if eq_status self.status paused
    then stay
    else if eq_status self.status queued
    then (if is_empty self.columns.url then stay else start_processing now self db)
    else stay

unfoldable pub cancel : (Snapshot → Db → Db) → ℕ → Snapshot → Db → Option Db
unfolding seal
cancel finalize now self db =
    if eq_status self.status sealed
    then some db
    else Option.map (λ (r : Result). r.db) (seal finalize now self db)

-- `Crawl.objects.filter(id=self.crawl_id).values_list("status").first()`
abbrev pub parent_status : Snapshot → Db → Option Status
parent_status self db = Option.map (λ (c : Crawl). c.status) (find self.columns.crawl_id db.crawls)

abbrev pub parent_is : Status → Snapshot → Db → Bool
parent_is status self db = elim (parent_status self db) [
  | none ↦ false
  | some s ↦ eq_status s status
]

-- `True`, `False` or `None`, with the snapshot and the tables after the call
pub record Reconciled : Type 0 where
  pub answer : Option Bool
  pub snapshot : Snapshot
  pub db : Db

abbrev followed : Result → Reconciled
followed r = record { answer = some true; snapshot = r.snapshot; db = r.db }

-- after the claim: reload, look at the parent again, and follow it
follow_sealed : (Snapshot → Db → Db) → ℕ → Snapshot → Db → Option Reconciled
unfolding seal
follow_sealed finalize now self db = find self.pk db.snapshots >>= λ fresh.
    if parent_is sealed fresh db && not (eq_status fresh.status sealed)
    then Option.map followed (seal finalize now fresh db)
    else some (record { answer = some true; snapshot = fresh; db = db })

follow_paused : ℕ → Snapshot → Db → Option Reconciled
unfolding Queue.pause
follow_paused now self db = find self.pk db.snapshots >>= λ fresh.
    if parent_is paused fresh db && not (is_in fresh.status (paused ∷ sealed ∷ []))
    then some (followed (of_outcome (Queue.pause crawl_class now true fresh db.snapshots) db))
    else some (record { answer = some true; snapshot = fresh; db = db })

pub reconcile_parent_lifecycle :
    (Snapshot → Db → Db) → (ℕ → ℕ) → ℕ → Snapshot → Db → Option Reconciled
reconcile_parent_lifecycle finalize clock lock_seconds self db =
    let claim =
      of_outcome (Queue.claim_processing_lock crawl_class (clock 0) lock_seconds self db.snapshots)
        db in
    let refused = some (record { answer = some false; snapshot = claim.snapshot; db = claim.db }) in
    if parent_is sealed self db && not (eq_status self.status sealed)
    then (if claim.done then follow_sealed finalize (clock 1) claim.snapshot claim.db else refused)
    else if parent_is paused self db && not (is_in self.status (paused ∷ sealed ∷ []))
    then (if claim.done then follow_paused (clock 1) claim.snapshot claim.db else refused)
    else some (record { answer = none; snapshot = self; db = db })
