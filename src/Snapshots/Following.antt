-- ===== src/Snapshots/Following.antt =====
-- When `Snapshot.reconcile_parent_lifecycle` of archivebox/core/models.py leaves a snapshot to the
-- runner.
use mathlib.Core.Option
use archive_box.Base.{
  ℕ, ◌≡◌, ◌⊎◌, refl, Bool, true, false, ◌&&◌, ◌||◌, not, Option, none, some, [], ◌∷◌, arith,
  if◌then◌else◌, inl, inr, Option-cases,
}
use archive_box.Queue.Table.{Status, paused, sealed, eq_status, find}
use archive_box.Queue.{is_in, crawl_class}
use archive_box.Queue
use archive_box.Db.{Snapshot, Db}
use archive_box.Snapshots.{
  Reconciled, Result, parent_is, followed, follow_sealed, follow_paused, seal, of_outcome,
  reconcile_parent_lifecycle,
}

-- A snapshot that its crawl does not hold back: a sealed one, or one whose crawl is neither sealed nor
-- paused.
abbrev pub is_left : Snapshot → Db → Bool
is_left s db =
    eq_status s.status sealed
    || not (parent_is sealed s db) && (eq_status s.status paused || not (parent_is paused s db))

abbrev answered : Bool → Snapshot → Db → Option Reconciled
answered b s db = some (record { answer = some b; snapshot = s; db = db })

-- the answer is not `None`
abbrev pub Answers : Option Reconciled → Type 0
Answers none = Unit
Answers (some r) = (b : Bool) × (r.answer ≡ some b)

Answers-map : (o : Option Result) → Answers (Option.map followed o)
Answers-map none = tt
Answers-map (some r) = (true, refl)

Answers-if :
    (b : Bool) (x y : Option Reconciled) → Answers x → Answers y → Answers (if b then x else y)
Answers-if true x y h g = h
Answers-if false x y h g = g

follow_sealed-Answers :
    (finalize : Snapshot → Db → Db) (now : ℕ) (s : Snapshot) (db : Db)
    → Answers (follow_sealed finalize now s db)
unfolding follow_sealed
follow_sealed-Answers finalize now s db = elim (Option-cases (find s.pk db.snapshots)) [
  | inl gone ↦ rw gone tt
  | inr (fresh, here) ↦ rw here (
      Answers-if (parent_is sealed fresh db && not (eq_status fresh.status sealed))
        (Option.map followed (seal finalize now fresh db)) (answered true fresh db)
        (Answers-map (seal finalize now fresh db)) (true, refl))
]

follow_paused-Answers : (now : ℕ) (s : Snapshot) (db : Db) → Answers (follow_paused now s db)
unfolding follow_paused
follow_paused-Answers now s db = elim (Option-cases (find s.pk db.snapshots)) [
  | inl gone ↦ rw gone tt
  | inr (fresh, here) ↦ rw here (
      Answers-if (parent_is paused fresh db && not (is_in fresh.status (paused ∷ sealed ∷ [])))
        (some (followed (of_outcome (Queue.pause crawl_class now true fresh db.snapshots) db)))
        (answered true fresh db) (true, refl) (true, refl))
]

-- What the reconciliation gives: an answer, or the snapshot that is left to the runner as it is.
abbrev pub Follows : Snapshot → Db → Option Reconciled → Type 0
Follows s db none = Unit
Follows s db (some r) =
    ((b : Bool) × (r.answer ≡ some b))
    ⊎ ((r.answer ≡ none) × (r.snapshot ≡ s) × (r.db ≡ db) × (is_left s db ≡ true))

Answers-Follows : (s : Snapshot) (db : Db) (o : Option Reconciled) → Answers o → Follows s db o
Answers-Follows s db none h = tt
Answers-Follows s db (some r) h = inl h

Follows-if :
    (s : Snapshot) (db : Db) (b : Bool) (x y : Option Reconciled)
    → (b ≡ true → Answers x)
    → (b ≡ false → Follows s db y)
    → Follows s db (if b then x else y)
Follows-if s db true x y h g = Answers-Follows s db x (h refl)
Follows-if s db false x y h g = g refl

pub reconcile-Follows :
    (finalize : Snapshot → Db → Db) (clock : ℕ → ℕ) (lock_seconds : ℕ) (s : Snapshot) (db : Db)
    → Follows s db (reconcile_parent_lifecycle finalize clock lock_seconds s db)
unfolding reconcile_parent_lifecycle
reconcile-Follows finalize clock lock_seconds s db =
    Follows-if s db (parent_is sealed s db && not (eq_status s.status sealed))
      (if claim.done then follow_sealed finalize (clock 1) claim.snapshot claim.db else refused)
      rest
      (λ _.
        Answers-if claim.done (follow_sealed finalize (clock 1) claim.snapshot claim.db) refused
          (follow_sealed-Answers finalize (clock 1) claim.snapshot claim.db) (false, refl))
      λ not_sealed.
        Follows-if s db (parent_is paused s db && not (is_in s.status (paused ∷ sealed ∷ [])))
          (if claim.done then follow_paused (clock 1) claim.snapshot claim.db else refused)
          (some (record { answer = none; snapshot = s; db = db }))
          (λ _.
            Answers-if claim.done (follow_paused (clock 1) claim.snapshot claim.db) refused
              (follow_paused-Answers (clock 1) claim.snapshot claim.db) (false, refl))
          λ not_paused. inr (
            refl,
            refl,
            refl,
            left_alone s.status (parent_is sealed s db) (parent_is paused s db) not_sealed
                not_paused,
          )
  where
    claim : Result
    claim =
        of_outcome (Queue.claim_processing_lock crawl_class (clock 0) lock_seconds s db.snapshots)
          db

    refused : Option Reconciled
    refused = answered false claim.snapshot claim.db

    rest : Option Reconciled
    rest =
        if parent_is paused s db && not (is_in s.status (paused ∷ sealed ∷ []))
        then (if claim.done then follow_paused (clock 1) claim.snapshot claim.db else refused)
        else some (record { answer = none; snapshot = s; db = db })

    left_alone :
        (status : Status) (up down : Bool)
        → (up && not (eq_status status sealed)) ≡ false
        → (down && not (is_in status (paused ∷ sealed ∷ []))) ≡ false
        → (eq_status status sealed || not up && (eq_status status paused || not down)) ≡ true
    left_alone status up down h g = ground arith

pub reconcile-none :
    (finalize : Snapshot → Db → Db) (clock : ℕ → ℕ) (lock_seconds : ℕ) (s : Snapshot) (db : Db)
    → parent_is sealed s db ≡ false
    → parent_is paused s db ≡ false
    → reconcile_parent_lifecycle finalize clock lock_seconds s db
      ≡ some (record { answer = none; snapshot = s; db = db })
unfolding reconcile_parent_lifecycle
reconcile-none finalize clock lock_seconds s db open_ awake = rw (open_, awake) refl
