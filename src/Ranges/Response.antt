-- ===== src/Ranges/Response.antt =====
-- The answer of archivebox/misc/serve_static.py to a range: what it announces is what it delivers.
use archive_box.Base.{
  ℕ, zero, suc, ◌-◌, ◌≤◌, ◌<◌, ◌≡◌, ◌≢◌, refl, ap, ◌∙◌, Option, none, some, List, [], ◌∷◌, ◌++◌,
  leb, ltb, ◌==◌, arith, if◌then◌else◌, length, take, All, inl, inr, if-all, Bool-cases,
}
use archive_box.Text.{Text, ◌=?◌, strip, is_empty}
use archive_box.Text.Case.{lower, split_once}
use archive_box.Text.Words.{int}
use archive_box.Ranges.{
  Parsed, invalid, value_error, ranges, one, suffix, bounded, range_of, before, ranges_of, in_units,
  parse_range_header, Answer, partial, of_ranges, serve_range, blocks, drop, split_commas, unsigned,
  stop_after, bytes,
}
use archive_box.Ranges.Reading.{IsRead, concat, blocks-IsRead}

-- ranges that do not end before they start
abbrev AreForward : Parsed → Type 0
AreForward (ranges rs) = All (λ r. r.0 ≤ r.1) rs
AreForward _ = Unit

one-AreForward : (a b : Option ℕ) → AreForward (one a b)
one-AreForward none b = tt
one-AreForward (some start) none = tt
one-AreForward (some start) (some stop) = elim (Bool-cases (leb stop start)) [
  | inl empty ↦ rw empty tt
  | inr fine ↦ rw fine (ground arith, tt)
]

suffix-AreForward : (size : ℕ) (n : Option ℕ) → AreForward (suffix size n)
suffix-AreForward size none = tt
suffix-AreForward size (some n) = (omega arith, tt)

bounded-AreForward : (size : ℕ) (p : Option (Text × Text)) → AreForward (bounded size p)
unfolding strip unsigned stop_after
bounded-AreForward size none = tt
bounded-AreForward size (some (first, last)) =
    one-AreForward (unsigned (strip first))
      (if is_empty last then some size else stop_after (strip last))

range_of-AreForward : (size : ℕ) (v : Text) → AreForward (range_of size v)
unfolding range_of
range_of-AreForward size [] = tt
range_of-AreForward size (c ∷ s) =
    if-all AreForward (c == 45) (suffix size (int s)) (bounded size (split_once 45 (c ∷ s)))
      (λ _. suffix-AreForward size (int s)) (λ _. bounded-AreForward size (split_once 45 (c ∷ s)))

append-AreForward :
    (rs more : List (ℕ × ℕ))
    → All (λ r. r.0 ≤ r.1) rs
    → All (λ r. r.0 ≤ r.1) more
    → All (λ r. r.0 ≤ r.1) (rs ++ more)
append-AreForward [] more h g = g
append-AreForward (r ∷ rs) more h g = (h.0, append-AreForward rs more h.1 g)

before-AreForward : (p q : Parsed) → AreForward p → AreForward q → AreForward (before p q)
before-AreForward (ranges rs) (ranges more) h g = append-AreForward rs more h g
before-AreForward (ranges rs) invalid h g = tt
before-AreForward (ranges rs) value_error h g = tt
before-AreForward invalid q h g = tt
before-AreForward value_error q h g = tt

ranges_of-AreForward : (size : ℕ) (vs : List Text) → AreForward (ranges_of size vs)
unfolding ranges_of
ranges_of-AreForward size [] = tt
ranges_of-AreForward size (v ∷ vs) =
    before-AreForward (range_of size (strip v)) (ranges_of size vs)
      (range_of-AreForward size (strip v)) (ranges_of-AreForward size vs)

in_units-AreForward : (size : ℕ) (p : Option (Text × Text)) → AreForward (in_units size p)
unfolding ranges_of split_commas lower strip ◌=?◌
in_units-AreForward size none = tt
in_units-AreForward size (some (units, range)) = elim (Bool-cases (lower (strip units) =? bytes)) [
  | inl ok ↦ rw ok (ranges_of-AreForward size (split_commas range))
  | inr other ↦ rw other tt
]

parse-AreForward : (header : Text) (size : ℕ) → AreForward (parse_range_header header size)
unfolding parse_range_header
parse-AreForward header size = in_units-AreForward size (split_once 61 header)

-- What a partial answer says of its range.
abbrev pub Fits : ℕ → Answer → Type 0
Fits size (partial start stop) = (start ≤ stop) × (stop ≤ size)
Fits size _ = Unit

of_ranges-Fits : (size : ℕ) (p : Parsed) → AreForward p → Fits size (of_ranges size p)
of_ranges-Fits size invalid h = tt
of_ranges-Fits size value_error h = tt
of_ranges-Fits size (ranges []) h = tt
of_ranges-Fits size (ranges ((start, stop) ∷ [])) h = elim (Bool-cases (ltb size stop)) [
  | inl past ↦ rw past tt
  | inr fine ↦ rw fine (h.0, ground arith)
]
of_ranges-Fits size (ranges (r ∷ r' ∷ rs)) h = tt

serve_range-Fits : (header : Option Text) (size : ℕ) → Fits size (serve_range header size)
unfolding serve_range
serve_range-Fits none size = tt
serve_range-Fits (some header) size =
    of_ranges-Fits size (parse_range_header header size) (parse-AreForward header size)

length-take_le : (n : ℕ) (xs : List ℕ) → n ≤ length xs → length (take n xs) ≡ n
length-take_le zero xs h = refl
length-take_le (suc n) [] h = absurd (omega arith)
length-take_le (suc n) (x ∷ xs) h = omega (arith, length-take_le n xs (omega arith))

length-drop_eq : (n : ℕ) (xs : List ℕ) → length (drop n xs) ≡ length xs - n
length-drop_eq zero xs = omega arith
length-drop_eq (suc n) [] = omega arith
length-drop_eq (suc n) (x ∷ xs) = omega (arith, length-drop_eq n xs)

read_length :
    (block : ℕ) (file : List ℕ) (start stop : ℕ) (o : Option (List (List ℕ)))
    → start ≤ stop
    → stop ≤ length file
    → IsRead block file start (some stop) o
    → (bs : List (List ℕ)) × (o ≡ some bs) × (length (concat bs) ≡ stop - start)
read_length block file start stop none ordered fits h = absurd h
read_length block file start stop (some bs) ordered fits h = (
  bs,
  refl,
  ap length h.0
      ∙ length-take_le (stop - start) (drop start file) (omega (arith, length-drop_eq start file)),
)

-- A partial answer to a header on a file names a range that does not end before it starts and lies in
-- the file, and the iterator then ends and yields as many bytes as `Content-Length` announces, `stop -
-- start`. The block size is not zero, and more rounds are allowed than the file has bytes.
pub serve_range-length :
    (block : ℕ) (header : Option Text) (file : List ℕ) (start stop fuel : ℕ)
    → block ≢ 0
    → length file < fuel
    → serve_range header (length file) ≡ partial start stop
    → (start ≤ stop)
      × (stop ≤ length file)
      × ((bs : List (List ℕ)) × (blocks fuel block file start (some stop) ≡ some bs)
          × (length (concat bs) ≡ stop - start))
serve_range-length block header file start stop fuel some_block enough h =
    let (ordered, fits) : (start ≤ stop) × (stop ≤ length file) =
      rw h at (serve_range-Fits header (length file)) in
    (
      ordered,
      fits,
      read_length block file start stop (blocks fuel block file start (some stop)) ordered fits
          (blocks-IsRead block file start (some stop) fuel some_block enough),
    )
