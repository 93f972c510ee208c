-- ===== src/Text.antt =====
-- Text as a list of code points, and what the program uses of Python's `str`.
pub mod Case
pub mod Words
pub mod Names
pub mod Stripping
use archive_box.Base.{
  ℕ, Bool, true, false, ◌&&◌, ◌||◌, not, Option, none, some, List, [], ◌∷◌, ◌++◌, leb, ◌==◌,
  if◌then◌else◌,
}

abbrev pub Text : Type 0
Text = List ℕ

infix 50 ◌=?◌
unfoldable pub ◌=?◌ : Text → Text → Bool
[] =? [] = true
(a ∷ s) =? (b ∷ t) = a == b && (s =? t)
_ =? _ = false

-- `bool(s)`
abbrev pub is_empty : Text → Bool
is_empty [] = true
is_empty (c ∷ s) = false

abbrev pub between : ℕ → ℕ → ℕ → Bool
between a b c = leb a c && leb c b

-- the characters of `str.splitlines`
unfoldable pub is_break : ℕ → Bool
is_break c = between 10 13 c || between 28 30 c || c == 133 || between 8232 8233 c

-- `str.isspace`
unfoldable pub is_space : ℕ → Bool
is_space c =
    between 9 13 c
    || between 28 32 c
    || c == 133
    || c == 160
    || c == 5760
    || between 8192 8202 c
    || between 8232 8233 c
    || c == 8239
    || c == 8287
    || c == 12288

unfoldable pub lstrip : Text → Text
lstrip [] = []
lstrip (c ∷ s) = let rest = lstrip s in if is_space c then rest else c ∷ s

unfoldable pub rstrip : Text → Text
rstrip [] = []
rstrip (c ∷ s) = let rest = rstrip s in if is_space c && is_empty rest then [] else c ∷ rest

unfoldable pub strip : Text → Text
strip s = lstrip (rstrip s)

abbrev pub starts_with_hash : Text → Bool
starts_with_hash [] = false
starts_with_hash (c ∷ s) = c == 35

-- The first line and what follows its break, where `\r\n` is one break. A line that ends the text
-- is a line only if it has characters.
abbrev cons_line : Text → List Text → List Text
cons_line [] ls = ls
cons_line (c ∷ s) ls = (c ∷ s) ∷ ls

lines_from : Text → Text → List Text
unfolding is_break
lines_from line [] = cons_line line []
lines_from line (c ∷ []) = if is_break c then line ∷ [] else (line ++ c ∷ []) ∷ []
lines_from line (c ∷ d ∷ s) =
    let crlf = line ∷ lines_from [] s in
    let next = line ∷ lines_from [] (d ∷ s) in
    let more = lines_from (line ++ c ∷ []) (d ∷ s) in
    if c == 13 && d == 10 then crlf else if is_break c then next else more

unfoldable pub splitlines : Text → List Text
unfolding lines_from
splitlines s = lines_from [] s

-- `"\n".join(lines)`
unfoldable pub join_lines : List Text → Text
join_lines [] = []
join_lines (l ∷ []) = l
join_lines (l ∷ m ∷ ls) = l ++ 10 ∷ join_lines (m ∷ ls)

unfoldable pub is_in : Text → List Text → Bool
is_in s [] = false
is_in s (x ∷ xs) = (s =? x) || is_in s xs

-- what follows a prefix
unfoldable pub remove_prefix : Text → Text → Option Text
remove_prefix [] s = some s
remove_prefix (p ∷ ps) [] = none
remove_prefix (p ∷ ps) (c ∷ s) = let rest = remove_prefix ps s in if p == c then rest else none
