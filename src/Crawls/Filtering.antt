-- ===== src/Crawls/Filtering.antt =====
-- The filters of a crawl applied to its URLs and snapshots (archivebox/crawls/models.py):
-- `url_passes_filters`, `apply_crawl_config_filters` and `exclude_domain`. The two entries of the
-- configuration are a record, `matches` is `_pattern_matches_url`, and `normalize` is
-- `normalize_domain`, which both rest on the parser of URLs. Stopping the hooks of a started snapshot
-- is left out, and so are the files of a snapshot; `cascades` is the number of other rows that go with
-- a snapshot when it is deleted.
pub mod Exclusion
use archive_box.Base.{
  ℕ, ◌+◌, ◌-◌, Bool, true, false, ◌&&◌, ◌||◌, not, Option, none, some, List, [], ◌∷◌, ◌++◌, ◌==◌,
  if◌then◌else◌, select, length, or_else,
}
use archive_box.Text.{Text, is_empty, is_in}
use archive_box.Db.{Crawl, Snapshot, Db, child_in, open_states}
use archive_box.Crawls.Urls.{
  Decoded, PatternValue, str, list, split_filter_patterns, url_passes_compiled_filters,
  filter_entry, prune_urls,
}
use archive_box.Crawls.Limits.{snapshot_url}

-- `URL_ALLOWLIST` and `URL_DENYLIST` of a configuration; `none` is a key that is missing
pub record Filters : Type 0 where
  pub allowlist : Option Text
  pub denylist : Option Text

-- the entries of the crawl, and over them those of a snapshot
abbrev pub merged : Option Text → Option Text → Option Text
merged crawl_entry none = crawl_entry
merged crawl_entry (some entry) = some entry

unfoldable pub get_url_allowlist : Filters → Option Filters → List Text
get_url_allowlist config none = split_filter_patterns (str (or_else config.allowlist []))
get_url_allowlist config (some snapshot) =
    split_filter_patterns (str (or_else (merged config.allowlist snapshot.allowlist) []))

unfoldable pub get_url_denylist : Filters → Option Filters → List Text
get_url_denylist config none = split_filter_patterns (str (or_else config.denylist []))
get_url_denylist config (some snapshot) =
    split_filter_patterns (str (or_else (merged config.denylist snapshot.denylist) []))

unfoldable pub url_passes_filters : (Text → Text → Bool) → Filters → Option Filters → Text → Bool
url_passes_filters matches config snapshot url =
    url_passes_compiled_filters matches url (get_url_allowlist config snapshot)
      (get_url_denylist config snapshot)

-- `set_url_filters`
unfoldable pub set_url_filters : PatternValue → PatternValue → Filters
unfolding filter_entry
set_url_filters allowlist denylist = record {
  allowlist = filter_entry allowlist;
  denylist = filter_entry denylist;
}

-- What `apply_crawl_config_filters` returns, the text of the URLs and the snapshots after it.
pub record Applied : Type 0 where
  pub removed_urls : ℕ
  pub deleted_snapshots : ℕ
  pub urls : Text
  pub snapshots : List Snapshot

-- an open snapshot of the crawl that its filters no longer pass; `own` has a snapshot's entries
abbrev pub is_filtered : (Text → Text → Bool) → (ℕ → Filters) → Filters → Crawl → Snapshot → Bool
is_filtered matches own config self s =
    child_in self.pk open_states s
    && not (url_passes_filters matches config (some (own s.pk)) (snapshot_url s))

-- what `QuerySet.delete` returns first: every row that went, of any table
unfoldable pub deleted_rows : (ℕ → ℕ) → List Snapshot → ℕ
deleted_rows cascades [] = 0
deleted_rows cascades (s ∷ ss) = 1 + (cascades s.pk + deleted_rows cascades ss)

unfoldable pub apply_crawl_config_filters :
    (ℕ → ℕ)
    → (Text → Text → Bool)
    → (Text → Decoded)
    → (ℕ → Filters)
    → Filters
    → Crawl
    → Db
    → Applied
unfolding select prune_urls deleted_rows
apply_crawl_config_filters cascades matches decode own config self db =
    let (urls, removed) =
      prune_urls decode (λ url. not (url_passes_filters matches config none url))
        self.columns.urls in
    let filtered = select (is_filtered matches own config self) db.snapshots in
    record {
      removed_urls = length removed;
      deleted_snapshots = deleted_rows cascades filtered;
      urls = urls;
      snapshots = select (λ s. not (is_filtered matches own config self s)) db.snapshots;
    }

-- What `exclude_domain` returns, and the entries after it.
pub record Excluded : Type 0 where
  pub domain : Text
  pub created : Bool
  pub filters : Filters
  pub applied : Option Applied

unfoldable pub exclude_domain :
    (Text → Text)
    → (ℕ → ℕ)
    → (Text → Text → Bool)
    → (Text → Decoded)
    → (ℕ → Filters)
    → Filters
    → Text
    → Crawl
    → Db
    → Excluded
unfolding set_url_filters is_in get_url_denylist get_url_allowlist
exclude_domain normalize cascades matches decode own config domain self db =
    let name = normalize domain in
    let domains = get_url_denylist config none in
    let created = not (is_in name domains) in
    let next =
      if created
      then set_url_filters (list (get_url_allowlist config none)) (list (domains ++ name ∷ []))
      else config in
    if is_empty name
    then record { domain = []; created = false; filters = config; applied = none }
    else record {
      domain = name;
      created = created;
      filters = next;
      applied = some (apply_crawl_config_filters cascades matches decode own next self db);
    }
