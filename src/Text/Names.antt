-- ===== src/Text/Names.antt =====
-- Sets of names as Python code keeps them, `sorted({name.strip() for name in names if name.strip()})`,
-- and what such a list holds.
use archive_box.Base.{
  ◌≡◌, ◌↔◌, refl, ap, Bool, true, false, ◌&&◌, ◌||◌, List, [], ◌∷◌, ◌++◌, arith, ltb, ◌==◌, ==_iff,
  if◌then◌else◌,
}
use archive_box.Text.{Text, ◌=?◌, is_empty, strip, is_in}

-- equal texts
pub =?_iff : (s t : Text) → ((s =? t) ≡ true) ↔ (s ≡ t)
unfolding ◌=?◌
=?_iff [] [] = ground arith
=?_iff [] (b ∷ t) = ground arith
=?_iff (a ∷ s) [] = ground arith
=?_iff (a ∷ s) (b ∷ t) = ground (arith, =?_iff s t, ==_iff a b)

-- the names that are not empty
abbrev pub stripped : List Text → List Text
stripped [] = []
stripped (s ∷ ss) = if is_empty (strip s) then stripped ss else strip s ∷ stripped ss

-- `<` of two `str`
unfoldable pub text_lt : Text → Text → Bool
text_lt s [] = false
text_lt [] (b ∷ t) = true
text_lt (a ∷ s) (b ∷ t) = ltb a b || (a == b && text_lt s t)

unfoldable pub insert_name : Text → List Text → List Text
unfolding text_lt ◌=?◌
insert_name y [] = y ∷ []
insert_name y (z ∷ zs) =
    let rest = insert_name y zs in
    if y =? z then z ∷ zs else if text_lt y z then y ∷ z ∷ zs else z ∷ rest

-- `sorted(set(names))`
unfoldable pub sorted_set : List Text → List Text
unfolding insert_name
sorted_set [] = []
sorted_set (y ∷ ys) = insert_name y (sorted_set ys)

same_name : (x y z : Text) → (y =? z) ≡ true → (x =? y) ≡ (x =? z)
same_name x y z e = ap (λ v. x =? v) ((=?_iff y z).0 e)

is_in-insert_name :
    (x y : Text) (zs : List Text) → is_in x (insert_name y zs) ≡ ((x =? y) || is_in x zs)
unfolding insert_name is_in
is_in-insert_name x y [] = refl
is_in-insert_name x y (z ∷ zs) = ground (arith, same_name x y z, is_in-insert_name x y zs)

-- a set holds what the list holds
pub is_in-sorted_set : (x : Text) (ys : List Text) → is_in x (sorted_set ys) ≡ is_in x ys
unfolding sorted_set is_in
is_in-sorted_set x [] = refl
is_in-sorted_set x (y ∷ ys) =
    ground (arith, is_in-insert_name x y (sorted_set ys), is_in-sorted_set x ys)

pub is_in-append : (x : Text) (ys zs : List Text) → is_in x (ys ++ zs) ≡ (is_in x ys || is_in x zs)
unfolding is_in
is_in-append x [] zs = refl
is_in-append x (y ∷ ys) zs = ground (arith, is_in-append x ys zs)

-- equal lists of names
unfoldable pub eq_names : List Text → List Text → Bool
unfolding ◌=?◌
eq_names [] [] = true
eq_names (s ∷ ss) (t ∷ ts) = (s =? t) && eq_names ss ts
eq_names _ _ = false

pub eq_names_iff : (ss ts : List Text) → (eq_names ss ts ≡ true) ↔ (ss ≡ ts)
unfolding eq_names
eq_names_iff [] [] = ground arith
eq_names_iff [] (t ∷ ts) = ground arith
eq_names_iff (s ∷ ss) [] = ground arith
eq_names_iff (s ∷ ss) (t ∷ ts) = ground (arith, =?_iff s t, eq_names_iff ss ts)
