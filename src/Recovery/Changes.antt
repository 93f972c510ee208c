-- ===== src/Recovery/Changes.antt =====
-- Changes of a table row by row, as the repairs of archivebox/core/recovery_util.py make them.
use archive_box.Base.{ℕ, ◌≡◌, ◌⊎◌, refl, Bool, true, false, List, [], ◌∷◌, if◌then◌else◌}
use archive_box.Queue.Table.{Row, Status, sealed, update_where, change_if}

-- Two tables with the same rows in the same order, related one by one.
abbrev pub AllRows : {A : Type 0} → (A → A → Type 0) → List A → List A → Type 0
AllRows R [] [] = Unit
AllRows R (x ∷ xs) (y ∷ ys) = R x y × AllRows R xs ys
AllRows R _ _ = ⊥

-- A row with a change of its instants at most.
abbrev pub Reschedules : {E : Type 0} → Row E → Row E → Type 0
Reschedules r q = (q.pk ≡ r.pk) × (q.status ≡ r.status) × (q.columns ≡ r.columns)

-- A row with a change of its instants at most, or a sealed one that is moved to a state because a
-- condition holds of it.
abbrev pub Reopens : {E : Type 0} → Status → (ℕ → Bool) → Row E → Row E → Type 0
Reopens status p r q =
    Reschedules r q
    ⊎ ((r.status ≡ sealed)
        × (p r.pk ≡ true)
        × (q.pk ≡ r.pk)
        × (q.status ≡ status)
        × (q.columns ≡ r.columns))

pub AllRows-update_where :
    {E : Type 0} (R : Row E → Row E → Type 0) (p : Row E → Bool) (f : Row E → Row E)
    (rows : List (Row E))
    → ((r : Row E) → R r (change_if p f r))
    → AllRows R rows (update_where p f rows)
unfolding update_where
AllRows-update_where R p f [] h = tt
AllRows-update_where R p f (r ∷ rows) h = (h r, AllRows-update_where R p f rows h)

pub AllRows-trans :
    {A : Type 0} (P Q R : A → A → Type 0) (xs ys zs : List A)
    → ((x y z : A) → P x y → Q y z → R x z)
    → AllRows P xs ys
    → AllRows Q ys zs
    → AllRows R xs zs
AllRows-trans P Q R [] [] [] step h k = tt
AllRows-trans P Q R (x ∷ xs) (y ∷ ys) (z ∷ zs) step h k =
    (step x y z h.0 k.0, AllRows-trans P Q R xs ys zs step h.1 k.1)
AllRows-trans P Q R [] (y ∷ ys) zs step h k = elim h [ ]
AllRows-trans P Q R (x ∷ xs) [] zs step h k = elim h [ ]
AllRows-trans P Q R [] [] (z ∷ zs) step h k = elim k [ ]
AllRows-trans P Q R (x ∷ xs) (y ∷ ys) [] step h k = elim k [ ]

-- an update of the instants
pub reschedules :
    {E : Type 0} (p : Row E → Bool) (f : Row E → Row E) (rows : List (Row E))
    → ((r : Row E) → Reschedules r (f r))
    → AllRows Reschedules rows (update_where p f rows)
reschedules p f rows h = AllRows-update_where Reschedules p f rows (λ r. either (p r) r (f r) (h r))
  where
    either :
        {E : Type 0} (b : Bool) (r q : Row E) → Reschedules r q → Reschedules r (if b then q else r)
    either true r q h = h
    either false r q h = (refl, refl, refl)
