-- ===== src/Text/Case.antt =====
-- `str.lower`, `str.replace`, `str.split(c, 1)` and `in` of Python, on texts of ASCII letters.
use archive_box.Base.{
  ℕ, ◌+◌, Bool, true, false, ◌&&◌, ◌||◌, not, Option, none, some, [], ◌∷◌, leb, ◌==◌, if◌then◌else◌,
  map, select,
}
use archive_box.Text.{Text, remove_prefix}

abbrev lower_char : ℕ → ℕ
lower_char c = if leb 65 c && leb c 90 then c + 32 else c

unfoldable pub lower : Text → Text
lower s = map lower_char s

-- `s.replace(c, "")` and `s.replace(c, d)` for single characters
unfoldable pub without : ℕ → Text → Text
unfolding select
without c s = select (λ d. not (d == c)) s

unfoldable pub replace_char : ℕ → ℕ → Text → Text
replace_char c d s = map (λ x. if x == c then d else x) s

-- `s.split(c, 1)` where `c` occurs in `s`
unfoldable pub split_once : ℕ → Text → Option (Text × Text)
split_once c [] = none
split_once c (d ∷ s) =
    let rest = split_once c s in
    if d == c then some ([], s) else elim rest [ none ↦ none | some (a, b) ↦ some (d ∷ a, b) ]

unfoldable pub has_prefix : Text → Text → Bool
unfolding remove_prefix
has_prefix p s = elim (remove_prefix p s) [ none ↦ false | some _ ↦ true ]

-- `p in s`
unfoldable pub contains : Text → Text → Bool
unfolding has_prefix
contains p [] = has_prefix p []
contains p (c ∷ s) = let rest = contains p s in has_prefix p (c ∷ s) || rest
