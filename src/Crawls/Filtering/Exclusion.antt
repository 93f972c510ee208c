-- ===== src/Crawls/Filtering/Exclusion.antt =====
-- What is left after the filters of a crawl were applied (archivebox/crawls/models.py).
use archive_box.Base.{
  ℕ, ◌+◌, ◌≡◌, refl, ap, ◌∙◌, Option, none, some, or_else, Bool, ◌&&◌, ◌||◌, not, List, [], ◌∷◌,
  arith, ◌==◌, select, length, any,
}
use archive_box.Text.{Text}
use archive_box.Db.{Crawl, Snapshot, Db}
use archive_box.Queue.Table.{queued, started, paused, eq_status}
use archive_box.Crawls.Urls.{
  Decoded, str, split_filter_patterns, get_urls_list, prune_urls, url_passes_compiled_filters,
  denied,
}
use archive_box.Crawls.Urls.Pruning.{prune_urls-removed}
use archive_box.Crawls.Filtering.{
  merged, url_passes_filters, get_url_allowlist, get_url_denylist, Filters, is_filtered,
  deleted_rows, apply_crawl_config_filters,
}

-- the rows that go with the snapshots
pub cascaded : (ℕ → ℕ) → List Snapshot → ℕ
cascaded cascades [] = 0
cascaded cascades (s ∷ ss) = cascades s.pk + cascaded cascades ss

deleted_rows-cascaded :
    (cascades : ℕ → ℕ) (ss : List Snapshot)
    → deleted_rows cascades ss ≡ length ss + cascaded cascades ss
unfolding deleted_rows cascaded
deleted_rows-cascaded cascades [] = refl
deleted_rows-cascaded cascades (s ∷ ss) = omega (arith, deleted_rows-cascaded cascades ss)

denied-any :
    (matches : Text → Text → Bool) (url : Text) (patterns : List Text)
    → denied matches url patterns ≡ any (matches url) patterns
unfolding denied any
denied-any matches url [] = refl
denied-any matches url (p ∷ ps) = ground (arith, denied-any matches url ps)

-- A URL passes exactly if no pattern of the denylist matches it, and, where there is an allowlist, one
-- of its patterns does.
pub url_passes_compiled_filters_lem :
    (matches : Text → Text → Bool) (url : Text) (allowlist denylist : List Text)
    → url_passes_compiled_filters matches url allowlist denylist
      ≡ (not (any (matches url) denylist) && (any (matches url) allowlist || length allowlist == 0))
unfolding url_passes_compiled_filters any
url_passes_compiled_filters_lem matches url [] denylist =
    ground (arith, denied-any matches url denylist)
url_passes_compiled_filters_lem matches url (p ∷ ps) denylist =
    ground (arith, denied-any matches url denylist)

-- what the configuration says of a URL: a pattern denies it, or there are patterns that allow, and none
-- of them allows it
abbrev pub refuses : (Text → Text → Bool) → List Text → List Text → Text → Bool
refuses matches allowlist denylist url =
    any (matches url) denylist || not (length allowlist == 0) && not (any (matches url) allowlist)

-- the patterns of an entry: that of the snapshot, or else that of the crawl
abbrev pub patterns : Option Text → Option Text → List Text
patterns of_snapshot of_crawl =
    split_filter_patterns (str (or_else of_snapshot (or_else of_crawl [])))

-- an open snapshot of the crawl whose URL the configuration refuses
abbrev pub is_refused : (Text → Text → Bool) → (ℕ → Filters) → Filters → ℕ → Snapshot → Bool
is_refused matches own config k s =
    s.columns.crawl_id == k
    && ((eq_status s.status queued || eq_status s.status started || eq_status s.status paused)
        && refuses matches (patterns (own s.pk).allowlist config.allowlist)
            (patterns (own s.pk).denylist config.denylist) s.columns.url)

passes-refuses :
    (matches : Text → Text → Bool) (allowlist denylist : List Text) (url : Text)
    → not (url_passes_compiled_filters matches url allowlist denylist)
      ≡ refuses matches allowlist denylist url
passes-refuses matches allowlist denylist url =
    ground (arith, url_passes_compiled_filters_lem matches url allowlist denylist)

merged-patterns :
    (crawl_entry entry : Option Text)
    → split_filter_patterns (str (or_else (merged crawl_entry entry) []))
      ≡ patterns entry crawl_entry
merged-patterns crawl_entry none = refl
merged-patterns crawl_entry (some entry) = refl

filtered-refused :
    (matches : Text → Text → Bool) (own : ℕ → Filters) (config : Filters) (self : Crawl)
    (s : Snapshot)
    → is_filtered matches own config self s ≡ is_refused matches own config self.pk s
unfolding url_passes_filters get_url_allowlist get_url_denylist
filtered-refused matches own config self s =
    rw
      (
        merged-patterns config.allowlist (own s.pk).allowlist,
        merged-patterns config.denylist (own s.pk).denylist,
        passes-refuses matches (patterns (own s.pk).allowlist config.allowlist)
            (patterns (own s.pk).denylist config.denylist) s.columns.url,
      )
      (ground arith)

select-same :
    {A : Type 0} (p q : A → Bool) (xs : List A) → ((x : A) → p x ≡ q x) → select p xs ≡ select q xs
unfolding select
select-same p q [] same = refl
select-same p q (x ∷ xs) same = rw (same x, select-same p q xs same) refl

-- Applying the filters takes exactly those snapshots away that are open, of the crawl, and have a URL
-- that the patterns refuse, where an entry of a snapshot goes before that of the crawl. It reports their
-- number, with that of the rows of other tables that go with them, and the number of the listed URLs
-- that the patterns of the crawl refuse.
pub apply_crawl_config_filters-left :
    (cascades : ℕ → ℕ) (matches : Text → Text → Bool) (decode : Text → Decoded) (own : ℕ → Filters)
    (config : Filters) (self : Crawl) (db : Db)
    → let r = apply_crawl_config_filters cascades matches decode own config self db in
      let gone = select (is_refused matches own config self.pk) db.snapshots in
      (r.snapshots ≡ select (λ s. not (is_refused matches own config self.pk s)) db.snapshots)
      × (r.deleted_snapshots ≡ length gone + cascaded cascades gone)
      × (r.removed_urls
          ≡ length (
              select
                (refuses matches (patterns none config.allowlist) (patterns none config.denylist))
                (get_urls_list decode self.columns.urls)))
unfolding apply_crawl_config_filters prune_urls url_passes_filters get_url_allowlist
    get_url_denylist
apply_crawl_config_filters-left cascades matches decode own config self db =
    let same = filtered-refused matches own config self in
    let gone = select (is_refused matches own config self.pk) db.snapshots in
    (
      select-same _ _ db.snapshots (λ s. ap not (same s)),
      ap (deleted_rows cascades) (select-same _ _ db.snapshots same)
          ∙ deleted_rows-cascaded cascades gone,
      ap length (
          (prune_urls-removed decode (λ url. not (url_passes_filters matches config none url))
            self.columns.urls).0
          ∙ select-same _ _ (get_urls_list decode self.columns.urls) (
              passes-refuses matches (patterns none config.allowlist)
                (patterns none config.denylist))),
    )
