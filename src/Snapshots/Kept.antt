-- ===== src/Snapshots/Kept.antt =====
-- The methods of `Snapshot` (archivebox/core/models.py) that the runner calls keep the rows that are
-- sealed.
use mathlib.Core.Option
use archive_box.Base.{
  ℕ, ◌+◌, ◌≡◌, refl, true, ◌&&◌, ◌==◌, not, Option, none, some, List, [], ◌∷◌, arith, if◌then◌else◌,
  eq_option,
}
use archive_box.Queue.Table.{find, eq_status, Status, queued, started, sealed, paused, update_where}
use archive_box.Queue.Sealed.{
  KeepsSealed-refl, update_where-KeepsSealed, pause-KeepsSealed, claim-KeepsSealed,
}
use archive_box.Queue.{crawl_class, seconds, has_status, is_in, move_to, active_state_lease_seconds}
use archive_box.Queue
use archive_box.Db.{Snapshot, Db, open_states}
use archive_box.Db.Kept.{IsKept, IsKept-refl, IsKept-trans, IsKept-if, Ensures, Ensures-if}
use archive_box.Snapshots
use archive_box.Snapshots.{
  Result, Reconciled, transition, move, park, of_outcome, follow_sealed, follow_paused, parent_is,
  followed, ◌>>=◌,
}

abbrev pub db_of : Result → Db
db_of r = r.db

abbrev pub reconciled_db : Reconciled → Db
reconciled_db r = r.db

-- The rows that `finalize_output_metadata` writes keep their status.
abbrev pub FinalizeKeeps : (Snapshot → Db → Db) → Type 0
FinalizeKeeps finalize = (s : Snapshot) (t : Db) → IsKept t (finalize s t)

Ensures-map :
    {R : Type 0} (db_of : R → Db) (t u : Db) (f : Snapshot → R) (o : Option Snapshot)
    → ((s : Snapshot) → db_of (f s) ≡ u)
    → IsKept t u
    → Ensures db_of t (Option.map f o)
Ensures-map db_of t u f none e h = tt
Ensures-map db_of t u f (some s) e h = rw e h

transition-IsKept :
    (now : ℕ) (states : List Status) (status : Status) (at : Option ℕ) (self : Snapshot) (t : Db)
    → ((s : Status) → is_in s states ≡ true → s ≡ sealed → status ≡ sealed)
    → Ensures db_of t (transition now states status at self t)
unfolding transition
transition-IsKept now states status at self t stays =
    let p = λ (s : Snapshot).
      s.pk == self.pk && (eq_option s.retry_at self.retry_at && is_in s.status states) in
    let rows = update_where p (move status at now) t.snapshots in
    Ensures-map db_of t (record t { snapshots = rows }) _ (find self.pk rows) (λ s. refl)
      (record {
        crawls = KeepsSealed-refl t.crawls;
        snapshots =
            update_where-KeepsSealed p (move status at now) t.snapshots (λ r. refl)
              (λ r h. ground (arith, stays r.status));
      })

pub start_processing-IsKept :
    (now : ℕ) (self : Snapshot) (t : Db) → Ensures db_of t (Snapshots.start_processing now self t)
unfolding Snapshots.start_processing
start_processing-IsKept now self t =
    transition-IsKept now (queued ∷ []) started (some (now + seconds active_state_lease_seconds))
      self t (λ s h e. ground arith)

pub restore_marker-IsKept :
    (now : ℕ) (self : Snapshot) (t : Db)
    → IsKept t (Snapshots.restore_paused_scheduler_marker now self t).1
unfolding Snapshots.restore_paused_scheduler_marker
restore_marker-IsKept now self t = record {
  crawls = KeepsSealed-refl t.crawls;
  snapshots = update_where-KeepsSealed _ (park now) t.snapshots (λ r. refl) (λ r h. ground arith);
}

pub pause-IsKept :
    (now : ℕ) (self : Snapshot) (t : Db)
    → IsKept t (of_outcome (Queue.pause crawl_class now true self t.snapshots) t).db
pause-IsKept now self t = record {
  crawls = KeepsSealed-refl t.crawls;
  snapshots = pause-KeepsSealed now self t.snapshots;
}

pub claim-IsKept :
    (now lock_seconds : ℕ) (self : Snapshot) (t : Db)
    → IsKept t
        (of_outcome
          (Queue.claim_processing_lock crawl_class now lock_seconds self t.snapshots)
          t).db
claim-IsKept now lock_seconds self t = record {
  crawls = KeepsSealed-refl t.crawls;
  snapshots = claim-KeepsSealed now lock_seconds self t.snapshots;
}

module _ (finalize : Snapshot → Db → Db) (keeps : FinalizeKeeps finalize) where
  finalize_step :
      (t : Db) (o : Option Result)
      → Ensures db_of t o
      → Ensures db_of t
          (o >>= λ r. some (if r.done then record r { db = finalize r.snapshot r.db } else r))
  finalize_step t none h = tt
  finalize_step t (some r) h =
      IsKept-if db_of t r.done (record r { db = finalize r.snapshot r.db }) r
        (IsKept-trans t r.db (finalize r.snapshot r.db) h (keeps r.snapshot r.db)) h

  pub seal-IsKept :
      (now : ℕ) (self : Snapshot) (t : Db) → Ensures db_of t (Snapshots.seal finalize now self t)
  unfolding Snapshots.seal
  seal-IsKept now self t = Ensures-if db_of t (eq_status self.status sealed) _ _ (IsKept-refl t) (
      finalize_step t (transition now open_states sealed none self t)
        (transition-IsKept now open_states sealed none self t (λ s h e. refl)))

  followed_step :
      (t : Db) (o : Option Result)
      → Ensures db_of t o
      → Ensures reconciled_db t (Option.map followed o)
  followed_step t none h = tt
  followed_step t (some r) h = h

  -- The rest of a claim reloads the row, and the tables are those of the claim.
  reload_step :
      (t : Db) (o : Option Snapshot) (f : Snapshot → Option Reconciled)
      → ((s : Snapshot) → Ensures reconciled_db t (f s))
      → Ensures reconciled_db t (o >>= f)
  reload_step t none f h = tt
  reload_step t (some s) f h = h s

  follow_sealed-IsKept :
      (now : ℕ) (self : Snapshot) (t : Db)
      → Ensures reconciled_db t (follow_sealed finalize now self t)
  unfolding follow_sealed
  follow_sealed-IsKept now self t = reload_step t (find self.pk t.snapshots) _ λ fresh.
      Ensures-if reconciled_db t (parent_is sealed fresh t && not (eq_status fresh.status sealed)) _
        _ (followed_step t (Snapshots.seal finalize now fresh t) (seal-IsKept now fresh t))
        (IsKept-refl t)

  follow_paused-IsKept :
      (now : ℕ) (self : Snapshot) (t : Db) → Ensures reconciled_db t (follow_paused now self t)
  unfolding follow_paused
  follow_paused-IsKept now self t = reload_step t (find self.pk t.snapshots) _ λ fresh.
      Ensures-if reconciled_db t
        (parent_is paused fresh t && not (is_in fresh.status (paused ∷ sealed ∷ []))) _ _
        (pause-IsKept now fresh t) (IsKept-refl t)

  claimed_step :
      (t u : Db) (o : Option Reconciled)
      → IsKept t u
      → Ensures reconciled_db u o
      → Ensures reconciled_db t o
  claimed_step t u none k h = tt
  claimed_step t u (some r) k h = IsKept-trans t u r.db k h

  pub reconcile_parent_lifecycle-IsKept :
      (clock : ℕ → ℕ) (lock_seconds : ℕ) (self : Snapshot) (t : Db)
      → Ensures reconciled_db t
          (Snapshots.reconcile_parent_lifecycle finalize clock lock_seconds self t)
  unfolding Snapshots.reconcile_parent_lifecycle
  reconcile_parent_lifecycle-IsKept clock lock_seconds self t =
      let claim =
        of_outcome (Queue.claim_processing_lock crawl_class (clock 0) lock_seconds self t.snapshots)
          t in
      let kept = claim-IsKept (clock 0) lock_seconds self t in
      Ensures-if reconciled_db t (parent_is sealed self t && not (eq_status self.status sealed)) _ _
        (Ensures-if reconciled_db t claim.done _ _
          (claimed_step t claim.db _ kept (follow_sealed-IsKept (clock 1) claim.snapshot claim.db))
          kept)
        (Ensures-if reconciled_db t
          (parent_is paused self t && not (is_in self.status (paused ∷ sealed ∷ []))) _ _
          (Ensures-if reconciled_db t claim.done _ _
            (claimed_step t claim.db _ kept
              (follow_paused-IsKept (clock 1) claim.snapshot claim.db))
            kept)
          (IsKept-refl t))
