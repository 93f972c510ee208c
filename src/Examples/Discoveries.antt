-- ===== src/Examples/Discoveries.antt =====
-- Discovered URLs, URL lists and filters at concrete inputs.
use archive_box.Base.{
  ℕ, ◌≡◌, ◌≤◌, ◌⊎◌, refl, Bool, true, false, none, some, List, [], ◌∷◌, ◌==◌, arith, All, length,
  max, select, not, ◌+◌,
}
use archive_box.Text.{Text, is_in}
use archive_box.Crawls.Urls.{Decoded, other, get_urls_list}
use archive_box.Text.{strip, ◌=?◌}
use archive_box.Crawls.Limits.{
  Limits, Reason, max_urls_reached, children, limit_stop_reason, limit_stop_reason-max_urls,
  stop_reason, stop_reason-running, has_remaining_snapshot_capacity, has_remaining_url_capacity,
}
use archive_box.Crawls.Discovery.{
  Checks, Found, is_wanted, scope, new_urls, create_discovered_snapshots,
}
use archive_box.Crawls.Discovery.Admitted.{
  IsDistinctTexts, new_urls-Admitted, create_discovered_snapshots-limit,
}
use archive_box.Crawls.Seeding.{not_json, create_snapshots_from_urls}
use archive_box.Crawls.Seeding.Limit.{create_snapshots_from_urls-limit}
use archive_box.Crawls.Filtering.{Filters, apply_crawl_config_filters}
use archive_box.Crawls.Filtering.Exclusion.{
  is_refused, refuses, patterns, cascaded, apply_crawl_config_filters-left,
}
use archive_box.Examples.Data.{clock, crawl, db}

abbrev same_text : Text → Text
same_text s = s

abbrev inert : Text → Decoded
inert line = other

abbrev starts_alike : Text → Text → Bool
starts_alike [] pattern = false
starts_alike (c ∷ s) [] = false
starts_alike (c ∷ s) (p ∷ ps) = c == p

abbrev checks : Checks
checks = record {
  clean = same_text;
  is_valid = λ s. true;
  is_internal = λ s. false;
  is_saved = λ s. true;
  matches = starts_alike;
  allowlist = [];
  denylist = (120 ∷ []) ∷ [];
}

abbrev found : Text → Found
found url = record { url = url; title = []; bookmarked_at = []; timestamp = []; tags = [] }

abbrev records : List Found
records = found (97 ∷ []) ∷ found (120 ∷ []) ∷ found (98 ∷ []) ∷ found (97 ∷ []) ∷ []

new_urls-Admitted_example :
    All
      (λ u. (is_wanted checks u ≡ true) × (is_in u (scope true crawl db) ≡ false))
      (new_urls checks true 4 crawl records db)
    × IsDistinctTexts (new_urls checks true 4 crawl records db)
new_urls-Admitted_example = new_urls-Admitted checks true 4 crawl records db

create_discovered_snapshots-limit_example :
    let u = (create_discovered_snapshots checks length true 3 1000 1 crawl records db).1 in
    (length (children crawl u) ≤ 3) ⊎ (length (children crawl u) ≡ length (children crawl db))
create_discovered_snapshots-limit_example =
    create_discovered_snapshots-limit checks length true 3 1000 1 crawl records db (omega arith)

create_snapshots_from_urls-limit_example :
    let r = create_snapshots_from_urls checks (λ line. not_json) length true 3 clock crawl db in
    length (children crawl r.db) ≤ max 3 (length (children crawl db))
create_snapshots_from_urls-limit_example =
    create_snapshots_from_urls-limit checks (λ line. not_json) length true 3 clock crawl db
      (omega arith)

abbrev one_url : Limits
one_url = record { crawl_timeout = 0; crawl_max_size = 0; crawl_max_urls = 1 }

is_full : limit_stop_reason same_text inert one_url 1000 none crawl db ≡ max_urls_reached
unfolding limit_stop_reason archive_box.Crawls.Limits.count_urls_for_limit archive_box.Text.◌=?◌
is_full = refl

abbrev no_h : Filters
no_h = record { allowlist = none; denylist = some (104 ∷ []) }

abbrev own_filters : ℕ → Filters
own_filters k = record { allowlist = none; denylist = none }

apply_crawl_config_filters-left_example :
    let r = apply_crawl_config_filters (λ k. 2) starts_alike inert own_filters no_h crawl db in
    let gone = select (is_refused starts_alike own_filters no_h 1) db.snapshots in
    (r.snapshots ≡ select (λ s. not (is_refused starts_alike own_filters no_h 1 s)) db.snapshots)
    × (r.deleted_snapshots ≡ length gone + cascaded (λ k. 2) gone)
    × (r.removed_urls
        ≡ length (
            select
              (refuses starts_alike (patterns none none) (patterns none (some (104 ∷ []))))
              (get_urls_list inert crawl.columns.urls)))
apply_crawl_config_filters-left_example =
    apply_crawl_config_filters-left (λ k. 2) starts_alike inert own_filters no_h crawl db

abbrev letter_a : List Text
letter_a = (97 ∷ []) ∷ []

-- the lines `a`, `#` and ` a`
abbrev listed : Text
listed = 97 ∷ 10 ∷ 35 ∷ 10 ∷ 32 ∷ 97 ∷ []
