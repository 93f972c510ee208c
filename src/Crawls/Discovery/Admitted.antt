-- ===== src/Crawls/Discovery/Admitted.antt =====
-- Which discovered URLs become snapshots, and how many (archivebox/crawls/models.py).
use archive_box.Base.{
  ℕ, zero, suc, ◌+◌, ◌-◌, ◌≡◌, ◌≢◌, ◌≤◌, ◌⊎◌, inl, inr, refl, ap, ◌∙◌, Bool, true, false, ◌||◌, not,
  Option, none, some, List, [], ◌∷◌, ◌++◌, arith, select, take, length, length-append, length-take,
  Bool-cases, All, All-map, All-select, ltb,
}
use archive_box.Text.Names.{=?_iff}
use archive_box.Text.{Text, is_in, strip, ◌=?◌}
use archive_box.Queue.Table.{sealed, eq_status}
use archive_box.Db.{Crawl, Db, is_child}
use archive_box.Crawls.Limits.{children, remaining_snapshot_capacity}
use archive_box.Crawls.Discovery.{
  Found, Deduped, Checks, keys, keep_best, is_wanted, dedupe, up_to, scope, new_urls, rows_for,
  create_discovered_snapshots,
}

module _ {A : Type 0} where
  length-select : (p : A → Bool) (xs : List A) → length (select p xs) ≤ length xs
  unfolding select
  length-select p [] = omega arith
  length-select p (x ∷ xs) = ground (arith, length-select p xs)

  select-append : (p : A → Bool) (xs ys : List A) → select p (xs ++ ys) ≡ select p xs ++ select p ys
  unfolding select
  select-append p [] ys = refl
  select-append p (x ∷ xs) ys = ground (arith, select-append p xs ys)

length-rows_for :
    (new_pk : Text → ℕ) (now depth : ℕ) (self : Crawl) (us : List Text)
    → length (rows_for new_pk now depth self us) ≡ length us
length-rows_for new_pk now depth self [] = refl
length-rows_for new_pk now depth self (u ∷ us) = ap suc (length-rows_for new_pk now depth self us)

-- every new row is a child of the crawl
select-rows_for :
    (new_pk : Text → ℕ) (now depth : ℕ) (self : Crawl) (us : List Text)
    → select (is_child self.pk) (rows_for new_pk now depth self us)
      ≡ rows_for new_pk now depth self us
unfolding select
select-rows_for new_pk now depth self [] = refl
select-rows_for new_pk now depth self (u ∷ us) =
    ground (arith, select-rows_for new_pk now depth self us)

length-new_urls :
    (c : Checks) (only_new : Bool) (n : ℕ) (self : Crawl) (records : List Found) (db : Db)
    → n ≢ 0
    → length (new_urls c only_new n self records db) ≤ n - length (children self db)
unfolding new_urls remaining_snapshot_capacity
length-new_urls c only_new n self records db some_limit = ground (
  arith,
  some_limit,
  length-take (n - length (children self db))
      (select (λ u. not (is_in u (scope only_new self db))) (keys (dedupe c records []))),
)

length-children_append :
    (self : Crawl) (db : Db) (new_pk : Text → ℕ) (now depth : ℕ) (us : List Text)
    → length (
        children self (record db { snapshots = db.snapshots ++ rows_for new_pk now depth self us }))
      ≡ length (children self db) + length us
unfolding children
length-children_append self db new_pk now depth us =
    let rows = rows_for new_pk now depth self us in
    rw
      (select-append (is_child self.pk) db.snapshots rows, select-rows_for new_pk now depth self us)
      (length-append (select (is_child self.pk) db.snapshots) rows
        ∙ ap (λ k. length (select (is_child self.pk) db.snapshots) + k)
            (length-rows_for new_pk now depth self us))

-- With a limit, what is discovered never takes a crawl over the limit: either it has no more
-- snapshots than the limit afterwards, or as many as before.
pub create_discovered_snapshots-limit :
    (c : Checks) (new_pk : Text → ℕ) (only_new : Bool) (n now depth : ℕ) (self : Crawl)
    (records : List Found) (db : Db)
    → n ≢ 0
    → let u = (create_discovered_snapshots c new_pk only_new n now depth self records db).1 in
      (length (children self u) ≤ n) ⊎ (length (children self u) ≡ length (children self db))
unfolding create_discovered_snapshots
create_discovered_snapshots-limit c new_pk only_new n now depth self records db some_limit =
    let urls = new_urls c only_new n self records db in
    let saved = select c.is_saved urls in
    let count = length-children_append self db new_pk now depth saved in
    let few = length-new_urls c only_new n self records db some_limit in
    let fewer = length-select c.is_saved urls in
    elim (Bool-cases (eq_status self.status sealed || ltb self.columns.max_depth depth)) [
      | inl refused ↦ rw refused (inr refl)
      | inr open_crawl ↦ rw (open_crawl, count) (ground (arith, few, fewer))
    ]

same_test : (p : Text → Bool) (u v : Text) → u ≡ v → p u ≡ p v
same_test p u v e = ap p e

-- no text occurs twice
abbrev pub IsDistinctTexts : List Text → Type 0
IsDistinctTexts [] = Unit
IsDistinctTexts (s ∷ ss) = (is_in s ss ≡ false) × IsDistinctTexts ss

is_in-keep_best :
    (v url : Text) (r : Found) (kept : Deduped)
    → is_in v (keys (keep_best url r kept)) ≡ ((v =? url) || is_in v (keys kept))
unfolding keep_best is_in
is_in-keep_best v url r [] = ground arith
is_in-keep_best v url r ((u, old) ∷ rest) =
    ground (arith, is_in-keep_best v url r rest, =?_iff u url, same_test (λ x. v =? x) u url)

module _ (c : Checks) where
  -- the keys that are kept are wanted, and no key occurs twice
  abbrev IsKept : Deduped → Type 0
  IsKept kept = All (λ u. is_wanted c u ≡ true) (keys kept) × IsDistinctTexts (keys kept)

  keep_best-IsKept :
      (url : Text) (r : Found) (kept : Deduped)
      → is_wanted c url ≡ true
      → IsKept kept
      → IsKept (keep_best url r kept)
  unfolding keep_best is_in
  keep_best-IsKept url r [] wanted h = ((wanted, tt), (refl, tt))
  keep_best-IsKept url r ((u, old) ∷ rest) wanted h = elim (Bool-cases (u =? url)) [
    | inl old_key ↦ rw old_key h
    | inr other ↦
        let ih = keep_best-IsKept url r rest wanted (h.0.1, h.1.1) in
        rw other ((h.0.0, ih.0), (is_in-keep_best u url r rest ∙ rw other h.1.0, ih.1))
  ]

  dedupe-IsKept :
      (records : List Found) (kept : Deduped) → IsKept kept → IsKept (dedupe c records kept)
  unfolding dedupe
  dedupe-IsKept [] kept h = h
  dedupe-IsKept (r ∷ rs) kept h =
      let url = c.clean (strip r.url) in
      elim (Bool-cases (is_wanted c url)) [
        | inl wanted ↦
            rw wanted
              (dedupe-IsKept rs (keep_best url r kept) (keep_best-IsKept url r kept wanted h))
        | inr other ↦ rw other (dedupe-IsKept rs kept h)
      ]

is_in-select :
    (p : Text → Bool) (v : Text) (ss : List Text)
    → is_in v ss ≡ false
    → is_in v (select p ss) ≡ false
unfolding is_in select
is_in-select p v [] h = refl
is_in-select p v (s ∷ ss) h = ground (arith, is_in-select p v ss)

select-IsDistinctTexts :
    (p : Text → Bool) (ss : List Text) → IsDistinctTexts ss → IsDistinctTexts (select p ss)
unfolding select
select-IsDistinctTexts p [] h = tt
select-IsDistinctTexts p (s ∷ ss) h = elim (Bool-cases (p s)) [
  | inl e ↦ rw e (is_in-select p s ss h.0, select-IsDistinctTexts p ss h.1)
  | inr e ↦ rw e (select-IsDistinctTexts p ss h.1)
]

is_in-take : (n : ℕ) (v : Text) (ss : List Text) → is_in v ss ≡ false → is_in v (take n ss) ≡ false
unfolding is_in
is_in-take zero v ss h = refl
is_in-take (suc n) v [] h = refl
is_in-take (suc n) v (s ∷ ss) h = ground (arith, is_in-take n v ss)

take-IsDistinctTexts : (n : ℕ) (ss : List Text) → IsDistinctTexts ss → IsDistinctTexts (take n ss)
take-IsDistinctTexts zero ss h = tt
take-IsDistinctTexts (suc n) [] h = tt
take-IsDistinctTexts (suc n) (s ∷ ss) h = (is_in-take n s ss h.0, take-IsDistinctTexts n ss h.1)

take-All : (P : Text → Type 0) (n : ℕ) (ss : List Text) → All P ss → All P (take n ss)
take-All P zero ss h = tt
take-All P (suc n) [] h = tt
take-All P (suc n) (s ∷ ss) h = (h.0, take-All P n ss h.1)

up_to-both :
    (P : Text → Type 0) (limit : Option ℕ) (ss : List Text)
    → All P ss
    → IsDistinctTexts ss
    → All P (up_to limit ss) × IsDistinctTexts (up_to limit ss)
up_to-both P none ss h d = (h, d)
up_to-both P (some n) ss h d = (take-All P n ss h, take-IsDistinctTexts n ss d)

-- The URLs that become snapshots are all different, each one passes the filters and the other tests
-- of a URL, and no snapshot in the scope has it: of the whole archive, or of the crawl.
pub new_urls-Admitted :
    (c : Checks) (only_new : Bool) (max_urls : ℕ) (self : Crawl) (records : List Found) (db : Db)
    → All
        (λ u. (is_wanted c u ≡ true) × (is_in u (scope only_new self db) ≡ false))
        (new_urls c only_new max_urls self records db)
      × IsDistinctTexts (new_urls c only_new max_urls self records db)
unfolding new_urls
new_urls-Admitted c only_new max_urls self records db =
    let kept = dedupe-IsKept c records [] (tt, tt) in
    let fresh : Text → Bool = λ u. not (is_in u (scope only_new self db)) in
    let all = keys (dedupe c records []) in
    up_to-both (λ u. (is_wanted c u ≡ true) × (is_in u (scope only_new self db) ≡ false))
      (remaining_snapshot_capacity max_urls self db) (select fresh all)
      (All-map (λ u. (is_wanted c u ≡ true) × (fresh u ≡ true))
        (λ u. (is_wanted c u ≡ true) × (is_in u (scope only_new self db) ≡ false))
        (select fresh all) (λ u h. (h.0, ground (arith, h.1)))
        (All-select (λ u. is_wanted c u ≡ true) fresh all kept.0))
      (select-IsDistinctTexts fresh all kept.1)
