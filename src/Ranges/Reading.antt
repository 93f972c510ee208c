-- ===== src/Ranges/Reading.antt =====
-- `RangedFileReader.__iter__` of archivebox/misc/serve_static.py ends, and reads exactly its part of the
-- file.
use mathlib.Core.Option
use archive_box.Base.{
  ℕ, zero, suc, ◌+◌, ◌-◌, ◌≤◌, ◌<◌, ◌≡◌, ◌≢◌, refl, ap, ◌∙◌, sym, true, false, Option, none, some,
  List, [], ◌∷◌, ◌++◌, min, ◌==◌, arith, length, take, length-take, All, inl, inr, Bool-cases,
}
use archive_box.Ranges.{drop, size_of, is_before, blocks}

-- the part of the file from a position up to a stop
abbrev pub slice : List ℕ → ℕ → Option ℕ → List ℕ
slice file position none = drop position file
slice file position (some stop) = take (stop - position) (drop position file)

abbrev pub concat : List (List ℕ) → List ℕ
concat [] = []
concat (b ∷ bs) = b ++ concat bs

drop-nil : (k : ℕ) → drop {A = ℕ} k [] ≡ []
drop-nil zero = refl
drop-nil (suc k) = refl

drop-add : (n k : ℕ) (xs : List ℕ) → drop (n + k) xs ≡ drop k (drop n xs)
drop-add zero k xs = ap (λ j. drop j xs) (omega arith)
drop-add (suc n) k [] = drop-nil (suc n + k) ∙ sym (drop-nil k)
drop-add (suc n) k (x ∷ xs) =
    let e : suc n + k ≡ suc (n + k) = omega arith in rw e (drop-add n k xs)

-- What was read, and what is left.
drop-length-take : (n : ℕ) (xs : List ℕ) → drop (length (take n xs)) xs ≡ drop n xs
drop-length-take zero xs = refl
drop-length-take (suc n) [] = refl
drop-length-take (suc n) (x ∷ xs) = drop-length-take n xs

take-drop : (n : ℕ) (xs : List ℕ) → take n xs ++ drop n xs ≡ xs
take-drop zero xs = refl
take-drop (suc n) [] = refl
take-drop (suc n) (x ∷ xs) = ap (λ ys. x ∷ ys) (take-drop n xs)

take-nil : (k : ℕ) → take {A = ℕ} k [] ≡ []
take-nil zero = refl
take-nil (suc k) = refl

take_more :
    (n m : ℕ) (xs : List ℕ)
    → n ≤ m
    → take n xs ++ take (m - length (take n xs)) (drop (length (take n xs)) xs) ≡ take m xs
take_more zero m xs h = ap (λ j. take j xs) (omega arith)
take_more (suc n) m [] h = take-nil (m - 0) ∙ sym (take-nil m)
take_more (suc n) zero (x ∷ xs) h = absurd (omega arith)
take_more (suc n) (suc m) (x ∷ xs) h =
    let e : suc m - suc (length (take n xs)) ≡ m - length (take n xs) = omega arith in
    rw e (ap (λ ys. x ∷ ys) (take_more n m xs (omega arith)))

length-take-drop : (n : ℕ) (xs : List ℕ) → length (take n xs) + length (drop n xs) ≡ length xs
length-take-drop zero xs = omega arith
length-take-drop (suc n) [] = omega arith
length-take-drop (suc n) (x ∷ xs) = omega (arith, length-take-drop n xs)

length-drop : (n : ℕ) (xs : List ℕ) → length (drop n xs) ≤ length xs
length-drop zero xs = omega arith
length-drop (suc n) [] = omega arith
length-drop (suc n) (x ∷ xs) = omega (arith, length-drop n xs)

take_nothing : (n : ℕ) (xs : List ℕ) → 0 < n → length (take n xs) ≡ 0 → xs ≡ []
take_nothing zero xs h e = absurd (omega arith)
take_nothing (suc n) [] h e = refl
take_nothing (suc n) (x ∷ xs) h e = absurd (omega arith)

-- What the iterator yields: blocks that are not empty and not larger than the block size, and that are
-- the part of the file together.
abbrev pub IsRead : ℕ → List ℕ → ℕ → Option ℕ → Option (List (List ℕ)) → Type 0
IsRead block file position stop none = ⊥
IsRead block file position stop (some bs) =
    (concat bs ≡ slice file position stop) × All (λ b. (0 < length b) × (length b ≤ block)) bs

nonzero : (n : ℕ) → (n == 0) ≡ false → 0 < n
nonzero n h = ground arith

module _ (block : ℕ) (file : List ℕ) (some_block : block ≢ 0) where
  abbrev chunk : ℕ → Option ℕ → List ℕ
  chunk position stop = take (size_of block stop position) (drop position file)

  -- a block, and the rest of the part
  slice-step :
      (position : ℕ) (stop : Option ℕ)
      → chunk position stop ++ slice file (position + length (chunk position stop)) stop
        ≡ slice file position stop
  slice-step position none =
      ap (λ ys. chunk position none ++ ys)
        (drop-add position (length (chunk position none)) file
          ∙ drop-length-take block (drop position file))
      ∙ take-drop block (drop position file)
  slice-step position (some stop) =
      let n = min block (stop - position) in
      let got = length (take n (drop position file)) in
      let less : stop - (position + got) ≡ (stop - position) - got = omega arith in
      let on = drop-add position got file in
      rw (less, on) (take_more n (stop - position) (drop position file) (omega arith))

  slice-end :
      (position : ℕ) (stop : Option ℕ)
      → is_before position stop ≡ false
      → slice file position stop ≡ []
  slice-end position none h = cc
  slice-end position (some stop) h = let z : stop - position ≡ 0 = ground arith in rw z refl

  slice-empty :
      (position : ℕ) (stop : Option ℕ)
      → is_before position stop ≡ true
      → length (chunk position stop) ≡ 0
      → slice file position stop ≡ []
  slice-empty position none h e = take_nothing block (drop position file) (omega arith) e
  slice-empty position (some stop) h e =
      ap (take (stop - position))
        (take_nothing (min block (stop - position)) (drop position file) (ground arith) e)
      ∙ take-nil (stop - position)

  chunk_small : (position : ℕ) (stop : Option ℕ) → length (chunk position stop) ≤ block
  chunk_small position none = length-take block (drop position file)
  chunk_small position (some stop) =
      omega (arith, length-take (min block (stop - position)) (drop position file))

  left_over :
      (position : ℕ) (stop : Option ℕ)
      → length (drop (position + length (chunk position stop)) file) + length (chunk position stop)
        ≡ length (drop position file)
  left_over position stop =
      let e =
        drop-add position (length (chunk position stop)) file
        ∙ drop-length-take (size_of block stop position) (drop position file) in
      rw e (omega (arith, length-take-drop (size_of block stop position) (drop position file)))

  more :
      (position : ℕ) (stop : Option ℕ) (o : Option (List (List ℕ)))
      → (length (chunk position stop) == 0) ≡ false
      → IsRead block file (position + length (chunk position stop)) stop o
      → IsRead block file position stop (Option.map (λ bs. chunk position stop ∷ bs) o)
  more position stop none h r = r
  more position stop (some bs) h (same, good) = (
    ap (λ ys. chunk position stop ++ ys) same ∙ slice-step position stop,
    ((ground arith, chunk_small position stop), good),
  )

  reads :
      (fuel position : ℕ) (stop : Option ℕ)
      → length (drop position file) < fuel
      → IsRead block file position stop (blocks fuel block file position stop)
  unfolding blocks
  reads zero position stop h = absurd (omega arith)
  reads (suc fuel) position stop h = elim (Bool-cases (is_before position stop)) [
    | inr over ↦ rw over (sym (slice-end position stop over), tt)
    | inl inside ↦ rw inside (elim (Bool-cases (length (chunk position stop) == 0)) [
      | inl empty ↦ rw empty (sym (slice-empty position stop inside (ground arith)), tt)
      | inr full ↦ rw full (
          more position stop _ full (
            reads fuel (position + length (chunk position stop)) stop (
              omega (arith, left_over position stop, nonzero (length (chunk position stop)) full))))
    ])
  ]

-- The iterator over a part of a file ends, and what it yields is that part, in blocks that are not
-- empty and not larger than the block size, for every position and stop, those past the end of the file
-- included, with more rounds allowed than the file has bytes. The block size is not zero.
pub blocks-IsRead :
    (block : ℕ) (file : List ℕ) (position : ℕ) (stop : Option ℕ) (fuel : ℕ)
    → block ≢ 0
    → length file < fuel
    → IsRead block file position stop (blocks fuel block file position stop)
blocks-IsRead block file position stop fuel some_block h =
    reads block file some_block fuel position stop (omega (arith, length-drop position file))
