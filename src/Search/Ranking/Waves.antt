-- ===== src/Search/Ranking/Waves.antt =====
-- `snapshot_metadata_search_waves` of archivebox/search/query.py, on texts of ASCII letters.
use archive_box.Base.{Bool, ◌||◌, List, [], ◌∷◌, ◌++◌, if◌then◌else◌, any}
use archive_box.Text.{Text, ◌=?◌}
use archive_box.Text.Case.{lower, contains, has_prefix}

-- What the metadata search reads of a snapshot: its columns, its tags, and its crawl.
pub record Searched : Type 0 where
  pub id : Text
  pub title : Text
  pub url : Text
  pub timestamp : Text
  pub tags : List Text
  pub notes : Text
  pub crawl_notes : Text
  pub crawl_label : Text
  pub username : Text
  pub config_values : List Text

has_suffix : Text → Text → Bool
unfolding ◌=?◌
has_suffix p [] = p =? []
has_suffix p (c ∷ s) = let rest = has_suffix p s in (p =? (c ∷ s)) || rest

abbrev icontains : Text → Text → Bool
icontains query s = contains (lower query) (lower s)

-- `istartswith` or `iendswith` of the id
abbrev in_id : Text → Searched → Bool
in_id query s = has_prefix (lower query) (lower s.id) || has_suffix (lower query) (lower s.id)

abbrev in_columns : Text → Searched → Bool
in_columns query s =
    icontains query s.title || (icontains query s.url || icontains query s.timestamp)

abbrev in_notes : Text → Searched → Bool
in_notes query s =
    icontains query s.notes || (icontains query s.crawl_notes || icontains query s.crawl_label)

-- `crawl_config_values_search_wave`
abbrev in_config : Text → Searched → Bool
in_config query s = any (icontains query) s.config_values

unfoldable pub snapshot_metadata_search_waves : Bool → Text → Bool → List (Searched → Bool)
unfolding has_suffix has_prefix contains lower any ◌=?◌
snapshot_metadata_search_waves has_json query include_id_matches =
    (if include_id_matches then in_id query ∷ [] else [])
    ++ (in_columns query
        ∷ (λ s. any (icontains query) s.tags)
        ∷ in_notes query
        ∷ (λ s. query =? s.username)
        ∷ (if has_json then in_config query ∷ [] else []))
