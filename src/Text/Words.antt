-- ===== src/Text/Words.antt =====
-- `str.split()` and `int(...)` of Python, as archivebox/services/resource_admission.py reads the
-- files of the kernel with them. A number there is a row of ASCII digits.
use archive_box.Base.{
  ℕ, ◌+◌, ◌-◌, ◌*◌, Bool, ◌&&◌, Option, none, some, List, [], ◌∷◌, ◌++◌, leb, if◌then◌else◌,
}
use archive_box.Text.{Text, is_space, is_empty}

push_word : Text → List Text → List Text
push_word w ws = if is_empty w then ws else w ∷ ws

words_from : Text → Text → List Text
unfolding push_word is_space
words_from w [] = push_word w []
words_from w (c ∷ s) =
    let here = push_word w (words_from [] s) in
    let more = words_from (w ++ c ∷ []) s in if is_space c then here else more

unfoldable pub words : Text → List Text
unfolding words_from
words s = words_from [] s

abbrev pub is_digit : ℕ → Bool
is_digit c = leb 48 c && leb c 57

unfoldable pub digits_from : ℕ → Text → Option ℕ
digits_from n [] = some n
digits_from n (c ∷ s) =
    let rest = digits_from (n * 10 + (c - 48)) s in if is_digit c then rest else none

unfoldable pub int : Text → Option ℕ
unfolding digits_from
int [] = none
int (c ∷ s) = digits_from 0 (c ∷ s)
