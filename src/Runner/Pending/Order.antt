-- ===== src/Runner/Pending/Order.antt =====
-- The first of a list in an order: what `_first_due_id` of archivebox/services/runner.py reads from a
-- query.
use mathlib.Core.Option
use mathlib.Core.Path.{subst}
use archive_box.Base.{
  ℕ, ◌≡◌, ◌⊎◌, refl, Bool, true, false, Option, none, some, List, [], ◌∷◌, arith, All, All-map,
  All-select, All-of_select, select, inl, inr, Bool-cases,
}
use archive_box.Queue.Table.{Row}
use archive_box.Runner.Pending.{first_due_id, first_of, better, is_before}

pub select-none :
    {A : Type 0} (p : A → Bool) (xs : List A) → select p xs ≡ [] → All (λ x. p x ≡ false) xs
unfolding select
select-none p [] h = tt
select-none p (x ∷ xs) h = elim (Bool-cases (p x)) [
  | inl met ↦ cc (rw met at h)
  | inr other ↦ (other, select-none p xs (rw other at h))
]

-- a row of the table
abbrev pub IsIn : {A : Type 0} → A → List A → Type 0
IsIn x [] = ⊥
IsIn x (y ∷ ys) = (x ≡ y) ⊎ IsIn x ys

pub All-IsIn : {A : Type 0} (xs : List A) → All (λ x. IsIn x xs) xs
All-IsIn [] = tt
All-IsIn (x ∷ xs) = (inl refl, All-map _ _ xs (λ y h. inr h) (All-IsIn xs))

module _ {A : Type 0} (p : A → A → Bool) where
  better-some : (x : A) (o : Option A) → better p x o ≡ none → ⊥
  unfolding better
  better-some x none h = cc
  better-some x (some y) h = elim (Bool-cases (p x y)) [
    | inl before ↦ cc (rw before at h)
    | inr after ↦ cc (rw after at h)
  ]

  pub first_of-none : (xs : List A) → first_of p xs ≡ none → xs ≡ []
  unfolding first_of
  first_of-none [] h = refl
  first_of-none (x ∷ xs) h = elim (better-some x (first_of p xs) h) [ ]

  module _ (total : (x y : A) → p x y ≡ false → p y x ≡ true)
      (trans : (x y z : A) → p x y ≡ true → p y z ≡ true → p x z ≡ true) where
    IsFirst : (A → Type 0) → List A → Option A → Type 0
    IsFirst P xs none = xs ≡ []
    IsFirst P xs (some x) = P x × (p x x ≡ true) × All (λ y. p x y ≡ true) xs

    itself : (x : A) → p x x ≡ true
    itself x = elim (Bool-cases (p x x)) [ inl holds ↦ holds | inr fails ↦ total x x fails ]

    better-IsFirst :
        (P : A → Type 0) (x : A) (xs : List A) (o : Option A)
        → P x
        → IsFirst P xs o
        → IsFirst P (x ∷ xs) (better p x o)
    unfolding better IsFirst
    better-IsFirst P x xs none h f = (h, itself x, (itself x, rw f tt))
    better-IsFirst P x xs (some y) h (here, self, rest) = elim (Bool-cases (p x y)) [
      | inl before ↦
          rw before (h, itself x, (itself x, All-map _ _ xs (λ z q. trans x y z before q) rest))
      | inr after ↦ rw after (here, self, (total x y after, rest))
    ]

    -- The first item is one of the list, and before each.
    pub first_of-IsFirst :
        (P : A → Type 0) (xs : List A) (x : A)
        → All P xs
        → first_of p xs ≡ some x
        → P x × All (λ y. p x y ≡ true) xs
    unfolding IsFirst first_of
    first_of-IsFirst P xs x ps h = let f = subst (IsFirst P xs) h (go xs ps) in (f.0, f.2)
      where
        go : (ys : List A) → All P ys → IsFirst P ys (first_of p ys)
        go [] qs = refl
        go (y ∷ ys) qs = better-IsFirst P y ys (first_of p ys) qs.0 (go ys qs.1)

pub is_before_total :
    {E : Type 0} (created : Row E → ℕ) (newest : Bool) (r q : Row E)
    → is_before created newest r q ≡ false
    → is_before created newest q r ≡ true
is_before_total created true r q h = ground arith
is_before_total created false r q h = ground arith

pub is_before_trans :
    {E : Type 0} (created : Row E → ℕ) (newest : Bool) (r q s : Row E)
    → is_before created newest r q ≡ true
    → is_before created newest q s ≡ true
    → is_before created newest r s ≡ true
is_before_trans created true r q s h g = ground arith
is_before_trans created false r q s h g = ground arith

pub map-none : {A B : Type 0} (f : A → B) (o : Option A) → Option.map f o ≡ none → o ≡ none
map-none f none h = refl
map-none f (some a) h = cc

pub first_due_id-none :
    {E : Type 0} (created : Row E → ℕ) (newest : Bool) (rows : List (Row E))
    → first_due_id created newest rows ≡ none
    → rows ≡ []
unfolding first_due_id
first_due_id-none created newest rows h =
    first_of-none (is_before created newest) rows
      (map-none (λ r. r.pk) (first_of (is_before created newest) rows) h)

pub map-some :
    {A B : Type 0} (f : A → B) (o : Option A) (b : B)
    → Option.map f o ≡ some b
    → (a : A) × (o ≡ some a) × (f a ≡ b)
map-some f none b h = cc
map-some f (some a) b h = (a, refl, cc)

-- as the code compares the rows
abbrev pub IsLeast : {E : Type 0} → (Row E → ℕ) → Bool → (Row E → Bool) → List (Row E) → ℕ → Type 0
IsLeast {E} created newest p rows k =
    (r : Row E) × (r.pk ≡ k)
    × IsIn r rows
    × (p r ≡ true)
    × All (λ q. p q ≡ true → is_before created newest r q ≡ true) rows

pub first_due_id-IsLeast :
    {E : Type 0} (created : Row E → ℕ) (newest : Bool) (p : Row E → Bool) (rows : List (Row E))
    (k : ℕ)
    → first_due_id created newest (select p rows) ≡ some k
    → IsLeast created newest p rows k
unfolding first_due_id
first_due_id-IsLeast created newest p rows k h =
    let (r, found, key) =
      map-some (λ r. r.pk) (first_of (is_before created newest) (select p rows)) k h in
    let f =
      first_of-IsFirst (is_before created newest) (is_before_total created newest)
        (is_before_trans created newest) (λ x. IsIn x rows × (p x ≡ true)) (select p rows) r
        (All-select (λ x. IsIn x rows) p rows (All-IsIn rows)) found in
    (r, key, f.0.0, f.0.1, All-of_select (λ q. is_before created newest r q ≡ true) p rows f.1)
