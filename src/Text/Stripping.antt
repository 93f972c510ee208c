-- ===== src/Text/Stripping.antt =====
-- `str.strip` of Python is idempotent, and a set of stripped names is one of stripped names again.
use archive_box.Base.{
  ℕ, ◌≡◌, refl, ap, ◌∙◌, false, ◌&&◌, List, [], ◌∷◌, ◌++◌, arith, inl, inr, Bool-cases, All,
}
use archive_box.Text.{Text, ◌=?◌, is_empty, is_space, lstrip, rstrip, strip}
use archive_box.Text.Names.{stripped, sorted_set, insert_name, text_lt}

rstrip_idem : (s : Text) → rstrip (rstrip s) ≡ rstrip s
unfolding rstrip
rstrip_idem [] = refl
rstrip_idem (c ∷ s) = elim (Bool-cases (is_space c && is_empty (rstrip s))) [
  | inl gone ↦ rw gone refl
  | inr stays ↦ rw stays (rw (rstrip_idem s) (rw stays refl))
]

lstrip_idem : (s : Text) → lstrip (lstrip s) ≡ lstrip s
unfolding lstrip
lstrip_idem [] = refl
lstrip_idem (c ∷ s) = elim (Bool-cases (is_space c)) [
  | inl space ↦ rw space (lstrip_idem s)
  | inr other ↦ rw other (rw other refl)
]

-- A text without spaces at its end has none there after its start is stripped.
rstrip-tail : (c : ℕ) (s : Text) → rstrip (c ∷ s) ≡ c ∷ s → rstrip s ≡ s
unfolding rstrip
rstrip-tail c s h = elim (Bool-cases (is_space c && is_empty (rstrip s))) [
  | inl gone ↦ cc (rw gone at h)
  | inr stays ↦ cc (rw stays at h)
]

rstrip-lstrip : (s : Text) → rstrip s ≡ s → rstrip (lstrip s) ≡ lstrip s
unfolding lstrip
rstrip-lstrip [] h = h
rstrip-lstrip (c ∷ s) h = elim (Bool-cases (is_space c)) [
  | inl space ↦ rw space (rstrip-lstrip s (rstrip-tail c s h))
  | inr other ↦ rw other h
]

pub strip_idem : (s : Text) → strip (strip s) ≡ strip s
unfolding strip
strip_idem s = ap lstrip (rstrip-lstrip (rstrip s) (rstrip_idem s)) ∙ lstrip_idem (rstrip s)

-- a name: stripped, and not empty
abbrev pub IsName : Text → Type 0
IsName s = (strip s ≡ s) × (is_empty s ≡ false)

pub stripped-IsName : (ss : List Text) → All IsName (stripped ss)
stripped-IsName [] = tt
stripped-IsName (s ∷ ss) = elim (Bool-cases (is_empty (strip s))) [
  | inl gone ↦ rw gone (stripped-IsName ss)
  | inr stays ↦ rw stays ((strip_idem s, stays), stripped-IsName ss)
]

insert_name-All {ℓ} :
    (P : Text → Type ℓ) (y : Text) (zs : List Text) → P y → All P zs → All P (insert_name y zs)
unfolding insert_name
insert_name-All P y [] h g = (h, tt)
insert_name-All P y (z ∷ zs) h g = elim (Bool-cases (y =? z)) [
  | inl same ↦ rw same g
  | inr other ↦ rw other (elim (Bool-cases (text_lt y z)) [
    | inl less ↦ rw less (h, g)
    | inr more ↦ rw more (g.0, insert_name-All P y zs h g.1)
  ])
]

pub sorted_set-All {ℓ} : (P : Text → Type ℓ) (ys : List Text) → All P ys → All P (sorted_set ys)
unfolding sorted_set
sorted_set-All P [] h = tt
sorted_set-All P (y ∷ ys) h = insert_name-All P y (sorted_set ys) h.0 (sorted_set-All P ys h.1)

pub append-All {ℓ} :
    (P : Text → Type ℓ) (ys zs : List Text) → All P ys → All P zs → All P (ys ++ zs)
append-All P [] zs h g = g
append-All P (y ∷ ys) zs h g = (h.0, append-All P ys zs h.1 g)

pub stripped-names : (ss : List Text) → All IsName ss → stripped ss ≡ ss
stripped-names [] h = refl
stripped-names (s ∷ ss) h = ground (arith, h.0, stripped-names ss h.1)
