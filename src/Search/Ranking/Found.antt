-- ===== src/Search/Ranking/Found.antt =====
-- Which snapshots a search finds (archivebox/search/query.py).
use archive_box.Base.{
  ℕ, suc, ◌≡◌, refl, Bool, true, false, ◌&&◌, ◌||◌, not, List, [], ◌∷◌, ◌++◌, arith, select, take,
}
use archive_box.Text.{Text}
use archive_box.Search.{mem, mem-append, mem-select, Backends}
use archive_box.Search.Ranking.Waves.{Searched}
use archive_box.Search.Ranking.{
  Ranks, max_search_rank_ids, chosen, matched, by_rank, Options, has_ids, in_ranks, ranks,
  overflows, prioritize_within, prioritize_metadata_matches, apply_snapshot_search,
}

has_ids-none : (xs : List ℕ) (pk : ℕ) → has_ids xs ≡ false → mem pk xs ≡ false
unfolding mem
has_ids-none [] pk h = refl
has_ids-none (x ∷ xs) pk h = cc

-- a key is in one of the slices
abbrev pub in_slices : ℕ → List ℕ → List ℕ → List ℕ → ℕ → Bool
in_slices most metadata fulltext in_depth pk =
    mem pk (take (suc most) metadata)
    || (mem pk (take (suc most) fulltext) || mem pk (take (suc most) in_depth))

-- The three ranks hold the keys of the three slices.
ranks-mem :
    (most : ℕ) (metadata fulltext in_depth : List ℕ) (pk : ℕ)
    → in_ranks (ranks most metadata fulltext in_depth) pk
      ≡ in_slices most metadata fulltext in_depth pk
unfolding ranks
ranks-mem most metadata fulltext in_depth pk =
    let first = take (suc most) metadata in
    let second = select (λ x. not (mem x first)) (take (suc most) fulltext) in
    let third = select (λ x. not (mem x first)) (take (suc most) in_depth) in
    ground (
      arith,
      mem-select (λ x. not (mem x first)) pk (take (suc most) fulltext),
      mem-select (λ x. not (mem x first)) pk (take (suc most) in_depth),
      mem-select (λ x. not (mem x second)) pk third,
    )

by_rank-mem :
    (r : Ranks) (base : List ℕ) (pk : ℕ) → mem pk (by_rank r base) ≡ (mem pk base && in_ranks r pk)
by_rank-mem r base pk =
    let p = λ (x : ℕ). mem x r.metadata in
    let q = λ (x : ℕ). not (mem x r.metadata) && mem x r.fulltext in
    let s = λ (x : ℕ). not (mem x r.metadata) && (not (mem x r.fulltext) && mem x r.in_depth) in
    ground (
      arith,
      mem-append pk (select p base) (select q base ++ select s base),
      mem-append pk (select q base) (select s base),
      mem-select p pk base,
      mem-select q pk base,
      mem-select s pk base,
    )

-- Unless one of the ranks holds more keys than are ranked, a search finds exactly the snapshots of
-- the base whose key is in the slice of one of the querysets, ordered or not.
pub prioritize_within-mem :
    (most : ℕ) (has_ordering : Bool) (base metadata fulltext in_depth : List ℕ) (pk : ℕ)
    → overflows most (ranks most metadata fulltext in_depth) ≡ false
    → mem pk (prioritize_within most has_ordering base metadata fulltext in_depth)
      ≡ (mem pk base && in_slices most metadata fulltext in_depth pk)
unfolding prioritize_within mem
prioritize_within-mem most has_ordering base metadata fulltext in_depth pk few =
    let r = ranks most metadata fulltext in_depth in
    ground (
      arith,
      ranks-mem most metadata fulltext in_depth pk,
      by_rank-mem r base pk,
      mem-select (in_ranks r) pk base,
      has_ids-none r.metadata pk,
      has_ids-none r.fulltext pk,
      has_ids-none r.in_depth pk,
    )

Within : List ℕ → List ℕ → Type 0
Within base found = (pk : ℕ) → mem pk found ≡ true → mem pk base ≡ true

refl-Within : (base : List ℕ) → Within base base
unfolding Within
refl-Within base pk h = h

module _ (base : List ℕ) where
  select-Within : (p : ℕ → Bool) → Within base (select p base)
  unfolding Within
  select-Within p pk h = ground (arith, mem-select p pk base)

  prioritize-Within :
      (most : ℕ) (has_ordering : Bool) (metadata fulltext in_depth : List ℕ)
      → Within base (prioritize_within most has_ordering base metadata fulltext in_depth)
  unfolding prioritize_within Within mem
  prioritize-Within most has_ordering metadata fulltext in_depth pk h =
      let r = ranks most metadata fulltext in_depth in
      ground (
        arith,
        by_rank-mem r base pk,
        mem-select (in_ranks r) pk base,
        mem-select (matched r metadata fulltext in_depth) pk base,
      )

  ranked-Within :
      (has_ordering : Bool) (metadata fulltext in_depth : List ℕ)
      → Within base (prioritize_metadata_matches has_ordering base metadata fulltext in_depth)
  unfolding prioritize_metadata_matches
  ranked-Within has_ordering metadata fulltext in_depth =
      prioritize-Within max_search_rank_ids has_ordering metadata fulltext in_depth

chosen-Within :
    (base : List ℕ) (no_query by_metadata by_depth by_backend : Bool) (all a b c d : List ℕ)
    → Within base all
    → Within base a
    → Within base b
    → Within base c
    → Within base d
    → Within base (chosen no_query by_metadata by_depth by_backend all a b c d)
unfolding chosen
chosen-Within base true by_metadata by_depth by_backend all a b c d w x y z t = w
chosen-Within base false true by_depth by_backend all a b c d w x y z t = x
chosen-Within base false false true by_backend all a b c d w x y z t = y
chosen-Within base false false false true all a b c d w x y z t = z
chosen-Within base false false false false all a b c d w x y z t = t

apply_snapshot_search_lem :
    (index : Text → List ℕ) (row : ℕ → Searched) (has_json : Bool) (b : Backends) (o : Options)
    (base : List ℕ) (query : Text)
    → Within base (apply_snapshot_search index row has_json b o base query)
unfolding apply_snapshot_search
apply_snapshot_search_lem index row has_json b o base query =
    chosen-Within base _ _ _ _ _ _ _ _ _ (refl-Within base) (select-Within base _)
      (ranked-Within base _ _ _ _) (select-Within base _) (ranked-Within base _ _ _ _)

-- A search finds only snapshots of the queryset that it is applied to, whatever the search index
-- answers, and in every mode: what the permissions left out of that queryset stays out.
pub apply_snapshot_search-Within :
    (index : Text → List ℕ) (row : ℕ → Searched) (has_json : Bool) (b : Backends) (o : Options)
    (base : List ℕ) (query : Text) (pk : ℕ)
    → mem pk (apply_snapshot_search index row has_json b o base query) ≡ true
    → mem pk base ≡ true
unfolding Within
apply_snapshot_search-Within index row has_json b o base query =
    apply_snapshot_search_lem index row has_json b o base query
