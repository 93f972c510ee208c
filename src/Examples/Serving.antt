-- ===== src/Examples/Serving.antt =====
-- Ranges of a file of six bytes.
use archive_box.Base.{ℕ, ◌≤◌, ◌≡◌, refl, some, List, [], ◌∷◌, arith, length}
use archive_box.Text.{Text, rstrip, lstrip, is_space}
use archive_box.Ranges.{partial, unsatisfiable, serve_range, parse_range_header, blocks}
use archive_box.Ranges.Reading.{IsRead, concat, blocks-IsRead}
use archive_box.Ranges.Response.{serve_range-length}

abbrev file : List ℕ
file = 1 ∷ 2 ∷ 3 ∷ 4 ∷ 5 ∷ 6 ∷ []

-- `bytes=`, with what follows
abbrev header : Text → Text
header rest = 98 ∷ 121 ∷ 116 ∷ 101 ∷ 115 ∷ 61 ∷ rest

-- `1-4`
abbrev middle : Text
middle = header (49 ∷ 45 ∷ 52 ∷ [])

middle_answer : serve_range (some middle) 6 ≡ partial 1 5
unfolding serve_range parse_range_header lstrip rstrip is_space
middle_answer = refl

-- `-0`: the suffix of no bytes is a partial answer, where the range is empty.
empty_suffix : serve_range (some (header (45 ∷ 48 ∷ []))) 6 ≡ partial 6 6
unfolding serve_range parse_range_header lstrip rstrip is_space
empty_suffix = refl

-- `0-9`: a stop past the end of the file is refused.
past_end : serve_range (some (header (48 ∷ 45 ∷ 57 ∷ []))) 6 ≡ unsatisfiable
unfolding serve_range parse_range_header lstrip rstrip is_space
past_end = refl

blocks-IsRead_example : IsRead 2 file 1 (some 5) (blocks 7 2 file 1 (some 5))
blocks-IsRead_example = blocks-IsRead 2 file 1 (some 5) 7 (omega arith) (omega arith)

serve_range-length_example :
    (1 ≤ 5)
    × (5 ≤ 6)
    × ((bs : List (List ℕ)) × (blocks 7 2 file 1 (some 5) ≡ some bs) × (length (concat bs) ≡ 4))
serve_range-length_example =
    serve_range-length 2 (some middle) file 1 5 7 (omega arith) (omega arith) middle_answer
