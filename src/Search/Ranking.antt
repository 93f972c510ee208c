-- ===== src/Search/Ranking.antt =====
-- `prioritize_metadata_matches` and `apply_snapshot_search` of archivebox/search/query.py. A
-- queryset is the list of its keys, without duplicates and in its order; `base` is in the order that
-- is asked for, and a queryset that is not given has no keys.
pub mod Waves
pub mod Found
use archive_box.Base.{
  ℕ, suc, Bool, true, false, ◌&&◌, ◌||◌, not, Option, none, some, List, [], ◌∷◌, ◌++◌, ◌==◌, leb,
  ltb, if◌then◌else◌, select, length, take, is_none, any,
}
use archive_box.Text.{Text, is_empty, strip, ◌=?◌}
use archive_box.Search.{
  Backends, mem, meta, contents, deep, colon, get_search_mode, get_search_mode_base,
  get_search_mode_backend,
}
use archive_box.Search.Ranking.Waves.{Searched, snapshot_metadata_search_waves}

abbrev pub max_search_rank_ids : ℕ
max_search_rank_ids = 500

abbrev pub has_ids : List ℕ → Bool
has_ids [] = false
has_ids (x ∷ xs) = true

-- the slice of a queryset, less the keys that are ranked before
abbrev pub new_ids : ℕ → List ℕ → List ℕ → List ℕ
new_ids most ranked queryset = select (λ pk. not (mem pk ranked)) (take (suc most) queryset)

-- The keys of the three ranks.
pub record Ranks : Type 0 where
  pub metadata : List ℕ
  pub fulltext : List ℕ
  pub in_depth : List ℕ

unfoldable pub ranks : ℕ → List ℕ → List ℕ → List ℕ → Ranks
unfolding select mem
ranks most metadata fulltext in_depth =
    let first = take (suc most) metadata in
    let second = new_ids most first fulltext in
    record {
      metadata = first;
      fulltext = second;
      in_depth = select (λ pk. not (mem pk second)) (new_ids most first in_depth);
    }

abbrev pub overflows : ℕ → Ranks → Bool
overflows most r =
    ltb most (length r.metadata) || (ltb most (length r.fulltext) || ltb most (length r.in_depth))

-- the filter by the whole querysets
abbrev pub matched : Ranks → List ℕ → List ℕ → List ℕ → ℕ → Bool
matched r metadata fulltext in_depth pk =
    (has_ids r.metadata && mem pk metadata)
    || ((has_ids r.fulltext && mem pk fulltext) || (has_ids r.in_depth && mem pk in_depth))

abbrev pub in_ranks : Ranks → ℕ → Bool
in_ranks r pk = mem pk r.metadata || (mem pk r.fulltext || mem pk r.in_depth)

-- `order_by("search_rank", *ordering)`
abbrev pub by_rank : Ranks → List ℕ → List ℕ
by_rank r base =
    select (λ pk. mem pk r.metadata) base
    ++ (select (λ pk. not (mem pk r.metadata) && mem pk r.fulltext) base
        ++ select (λ pk. not (mem pk r.metadata) && (not (mem pk r.fulltext) && mem pk r.in_depth))
            base)

unfoldable pub prioritize_within : ℕ → Bool → List ℕ → List ℕ → List ℕ → List ℕ → List ℕ
unfolding ranks select mem
prioritize_within most has_ordering base metadata fulltext in_depth =
    let r = ranks most metadata fulltext in_depth in
    if not (has_ids r.metadata) && (not (has_ids r.fulltext) && not (has_ids r.in_depth))
    then []
    else if overflows most r
    then select (matched r metadata fulltext in_depth) base
    else if has_ordering
    then by_rank r base
    else select (in_ranks r) base

unfoldable pub prioritize_metadata_matches : Bool → List ℕ → List ℕ → List ℕ → List ℕ → List ℕ
unfolding prioritize_within
prioritize_metadata_matches has_ordering base metadata fulltext in_depth =
    prioritize_within max_search_rank_ids has_ordering base metadata fulltext in_depth

-- What `apply_snapshot_search` is called with, beside the query.
pub record Options : Type 0 where
  pub search_mode : Option Text
  pub has_ordering : Bool
  pub max_results : ℕ
  pub skip_backend_when_metadata_satisfies_limit : Bool
  pub include_metadata_for_forced_backend : Bool
  pub include_id_matches : Bool

abbrev pub fulltext_mode : Option Text → Text
fulltext_mode none = contents
fulltext_mode (some backend) = contents ++ colon ∷ backend

abbrev is_satisfied : Options → List ℕ → Bool
is_satisfied o metadata =
    o.skip_backend_when_metadata_satisfies_limit
    && (not (o.max_results == 0) && leb o.max_results (length (take o.max_results metadata)))

-- the returns of `apply_snapshot_search`, in their order
unfoldable pub chosen :
    Bool → Bool → Bool → Bool → List ℕ → List ℕ → List ℕ → List ℕ → List ℕ → List ℕ
chosen no_query by_metadata by_depth by_backend base metadata in_depth backend ranked =
    if no_query
    then base
    else if by_metadata
    then metadata
    else if by_depth
    then in_depth
    else if by_backend
    then backend
    else ranked

-- `index` is `query_search_index` in a mode, `row` what the metadata search reads of a snapshot, and
-- `has_json` tells that the database can search the values of a configuration.
unfoldable pub apply_snapshot_search :
    (Text → List ℕ) → (ℕ → Searched) → Bool → Backends → Options → List ℕ → Text → List ℕ
apply_snapshot_search index row has_json b o base query =
    let q = strip query in
    let mode = get_search_mode b o.search_mode in
    let kind = get_search_mode_base b (some mode) in
    let backend = get_search_mode_backend b (some mode) in
    let waves = snapshot_metadata_search_waves has_json q o.include_id_matches in
    let metadata = select (λ pk. any (λ wave. wave (row pk)) waves) base in
    chosen (is_empty q) ((kind =? meta) || is_satisfied o metadata) (kind =? deep)
      (not (is_none backend) && not o.include_metadata_for_forced_backend) base metadata
      (prioritize_metadata_matches o.has_ordering base metadata (index (fulltext_mode backend))
        (index mode))
      (select (λ pk. mem pk (index mode)) base)
      (prioritize_metadata_matches o.has_ordering base metadata (index mode) [])
