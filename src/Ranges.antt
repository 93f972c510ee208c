-- ===== src/Ranges.antt =====
-- The serving of a part of a file in archivebox/misc/serve_static.py: `parse_range_header`, what
-- `serve_static_with_byterange_support` makes of its result, and the iterator of `RangedFileReader`. The
-- numbers of a header are ASCII digits, without the underscores that `int` lets through.
pub mod Reading
pub mod Response
use mathlib.Core.Option
use archive_box.Base.{
  ℕ, zero, suc, ◌+◌, ◌-◌, Bool, true, false, ◌&&◌, not, Option, none, some, List, [], ◌∷◌, ◌++◌,
  min, leb, ltb, ◌==◌, if◌then◌else◌, length, take,
}
use archive_box.Text.{Text, ◌=?◌, strip, is_empty}
use archive_box.Text.Case.{lower, split_once}
use archive_box.Text.Words.{int}

-- `None`, a `ValueError` of `int`, or the ranges as pairs of start and stop
pub data Parsed : Type 0 where
  invalid : Parsed
  value_error : Parsed
  ranges : List (ℕ × ℕ) → Parsed

-- `"bytes"`
abbrev bytes : Text
bytes = 98 ∷ 121 ∷ 116 ∷ 101 ∷ 115 ∷ []

-- `s.split(",")`
abbrev add_char : ℕ → List Text → List Text
add_char c [] = (c ∷ []) ∷ []
add_char c (w ∷ ws) = (c ∷ w) ∷ ws

split_commas : Text → List Text
split_commas [] = [] ∷ []
split_commas (c ∷ s) = let rest = split_commas s in if c == 44 then [] ∷ rest else add_char c rest

-- `int(s)` of a text without a minus sign
unsigned : Text → Option ℕ
unfolding int
unsigned [] = none
unsigned (c ∷ s) = if c == 43 then int s else int (c ∷ s)

-- `int(stop) + 1`, or 0 where that is negative
stop_after : Text → Option ℕ
unfolding int unsigned
stop_after [] = none
stop_after (c ∷ s) =
    if c == 45 then Option.map (λ n. 1 - n) (int s) else Option.map (λ n. n + 1) (unsigned (c ∷ s))

-- one value of the header: a range, or why there is none
abbrev one : Option ℕ → Option ℕ → Parsed
one none stop = value_error
one (some start) none = value_error
one (some start) (some stop) = if leb stop start then invalid else ranges ((start, stop) ∷ [])

abbrev suffix : ℕ → Option ℕ → Parsed
suffix size none = value_error
suffix size (some n) = ranges ((size - n, size) ∷ [])

abbrev bounded : ℕ → Option (Text × Text) → Parsed
unfolding strip unsigned stop_after
bounded size none = invalid
bounded size (some (first, last)) =
    one (unsigned (strip first)) (if is_empty last then some size else stop_after (strip last))

range_of : ℕ → Text → Parsed
unfolding bounded split_once int
range_of size [] = invalid
range_of size (c ∷ s) =
    if c == 45 then suffix size (int s) else bounded size (split_once 45 (c ∷ s))

abbrev before : Parsed → Parsed → Parsed
before (ranges rs) (ranges more) = ranges (rs ++ more)
before (ranges rs) other = other
before other more = other

ranges_of : ℕ → List Text → Parsed
unfolding range_of strip
ranges_of size [] = ranges []
ranges_of size (v ∷ vs) = before (range_of size (strip v)) (ranges_of size vs)

abbrev in_units : ℕ → Option (Text × Text) → Parsed
unfolding ranges_of split_commas lower strip ◌=?◌
in_units size none = invalid
in_units size (some (units, range)) =
    if lower (strip units) =? bytes then ranges_of size (split_commas range) else invalid

unfoldable pub parse_range_header : Text → ℕ → Parsed
unfolding in_units split_once
parse_range_header header size = in_units size (split_once 61 header)

-- the whole file, a part of it with status 206, or status 416
pub data Answer : Type 0 where
  whole : Answer
  partial : ℕ → ℕ → Answer
  unsatisfiable : Answer

abbrev of_ranges : ℕ → Parsed → Answer
of_ranges size (ranges ((start, stop) ∷ [])) =
    if ltb size stop then unsatisfiable else partial start stop
of_ranges size _ = whole

-- `none` is a request without the header
unfoldable pub serve_range : Option Text → ℕ → Answer
unfolding parse_range_header
serve_range none size = whole
serve_range (some header) size = of_ranges size (parse_range_header header size)

abbrev pub drop {ℓ} : {A : Type ℓ} → ℕ → List A → List A
drop zero xs = xs
drop (suc n) [] = []
drop (suc n) (x ∷ xs) = drop n xs

-- `min(self.block_size, self.stop - position)`; `none` is `float("inf")`
abbrev pub size_of : ℕ → Option ℕ → ℕ → ℕ
size_of block none position = block
size_of block (some stop) position = min block (stop - position)

abbrev pub is_before : ℕ → Option ℕ → Bool
is_before position none = true
is_before position (some stop) = ltb position stop

-- `RangedFileReader.__iter__`, with fuel; `none` is fuel that ran out. `file` is the content, and
-- reading at a position gives as much of it as there is.
unfoldable pub blocks : ℕ → ℕ → List ℕ → ℕ → Option ℕ → Option (List (List ℕ))
blocks zero block file position stop = none
blocks (suc fuel) block file position stop =
    let data_read = take (size_of block stop position) (drop position file) in
    let rest = blocks fuel block file (position + length data_read) stop in
    if not (is_before position stop)
    then some []
    else if length data_read == 0
    then some []
    else Option.map (λ bs. data_read ∷ bs) rest
