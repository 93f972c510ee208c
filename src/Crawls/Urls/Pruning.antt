-- ===== src/Crawls/Urls/Pruning.antt =====
-- Which URLs `prune_urls` and `prune_url` of archivebox/crawls/models.py remove.
use archive_box.Base.{◌+◌, ◌≡◌, refl, sym, ◌∙◌, ap, Bool, List, [], ◌∷◌, arith, select, length}
use archive_box.Text.{Text, strip, ◌=?◌}
use archive_box.Crawls.Urls.{
  Decoded, Entry, iter_url_lines, urls_of, get_urls_list, kept_lines, removed_urls, prune_urls,
  prune_url,
}

removed_urls-select :
    (predicate : Text → Bool) (entries : List Entry)
    → removed_urls predicate entries ≡ select predicate (urls_of entries)
unfolding removed_urls urls_of select
removed_urls-select predicate [] = refl
removed_urls-select predicate ((raw, url) ∷ entries) =
    ground (arith, removed_urls-select predicate entries)

length-kept_lines :
    (predicate : Text → Bool) (entries : List Entry)
    → length (kept_lines predicate entries) + length (removed_urls predicate entries)
      ≡ length entries
unfolding kept_lines removed_urls
length-kept_lines predicate [] = refl
length-kept_lines predicate ((raw, url) ∷ entries) =
    ground (arith, length-kept_lines predicate entries)

get_urls_list-entries :
    (decode : Text → Decoded) (urls : Text)
    → get_urls_list decode urls ≡ urls_of (iter_url_lines decode urls)
unfolding get_urls_list iter_url_lines urls_of
get_urls_list-entries decode [] = refl
get_urls_list-entries decode (c ∷ s) = refl

-- Pruning removes exactly the listed URLs that meet the predicate, in their order and with their
-- repetitions, and keeps every other line that is not blank, comments included.
pub prune_urls-removed :
    (decode : Text → Decoded) (predicate : Text → Bool) (urls : Text)
    → let removed = (prune_urls decode predicate urls).1 in
      let entries = iter_url_lines decode urls in
      (removed ≡ select predicate (get_urls_list decode urls))
      × (length (kept_lines predicate entries) + length removed ≡ length entries)
unfolding prune_urls
prune_urls-removed decode predicate urls =
    let entries = iter_url_lines decode urls in
    (
      removed_urls-select predicate entries
          ∙ ap (select predicate) (sym (get_urls_list-entries decode urls)),
      length-kept_lines predicate entries,
    )

-- The number that the removal of one URL reports is how often that URL, without the white space
-- around it, is listed.
pub prune_url-count :
    (decode : Text → Decoded) (url urls : Text)
    → (prune_url decode url urls).1
      ≡ length (select (λ candidate. candidate =? strip url) (get_urls_list decode urls))
unfolding prune_url
prune_url-count decode url urls =
    ap length ((prune_urls-removed decode (λ candidate. candidate =? strip url) urls).0)
