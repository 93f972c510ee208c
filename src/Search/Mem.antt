-- ===== src/Search/Mem.antt =====
-- Membership in a list of ids, the test `x in ids` of archivebox/search/query.py.
use archive_box.Base.{
  ℕ, ◌≡◌, refl, ap, Bool, false, ◌&&◌, ◌||◌, List, [], ◌∷◌, ◌++◌, ◌==◌, arith, select, ==_iff,
}

unfoldable pub mem : ℕ → List ℕ → Bool
mem x [] = false
mem x (y ∷ ys) = y == x || mem x ys

same : (p : ℕ → Bool) (x y : ℕ) → x ≡ y → p x ≡ p y
same p x y e = ap p e

pub mem-append : (x : ℕ) (xs ys : List ℕ) → mem x (xs ++ ys) ≡ (mem x xs || mem x ys)
unfolding mem
mem-append x [] ys = refl
mem-append x (y ∷ xs) ys = ground (arith, mem-append x xs ys)

pub mem-select : (p : ℕ → Bool) (x : ℕ) (xs : List ℕ) → mem x (select p xs) ≡ (mem x xs && p x)
unfolding mem select
mem-select p x [] = refl
mem-select p x (y ∷ xs) = ground (arith, mem-select p x xs, ==_iff y x, same p y x)
