-- ===== src/Crawls/Discovery.antt =====
-- `create_discovered_snapshots` of archivebox/crawls/models.py: the child snapshots of the URLs that
-- a parser discovered. `clean` is `sanitize_extracted_url` after `fix_url_from_markdown`, `is_valid`
-- that `validate_url` raises nothing, `is_internal` `is_archivebox_internal_url`, and `is_saved` that
-- the `save` of a new snapshot raises nothing. Titles, bookmark instants and tags are no columns of
-- the table here.
pub mod Admitted
use archive_box.Base.{
  ℕ, zero, suc, ◌+◌, ◌*◌, Bool, true, false, ◌&&◌, ◌||◌, not, Option, none, some, List, [], ◌∷◌,
  ◌++◌, ltb, ◌==◌, if◌then◌else◌, map, select, take,
}
use archive_box.Text.{Text, is_empty, is_in, strip, ◌=?◌}
use archive_box.Queue.Table.{queued, sealed, eq_status}
use archive_box.Db.{Crawl, Snapshot, Db}
use archive_box.Crawls.Urls.{url_passes_compiled_filters}
use archive_box.Crawls.Limits.{children, snapshot_url, remaining_snapshot_capacity}

-- A record that a parser wrote; an empty text is a field that is missing.
pub record Found : Type 0 where
  pub url : Text
  pub title : Text
  pub bookmarked_at : Text
  pub timestamp : Text
  pub tags : Text

abbrev given : Text → ℕ
given field = if is_empty field then 0 else 1

abbrev pub metadata_score : Found → ℕ
metadata_score r = given r.title + (given r.bookmarked_at + (given r.timestamp + given r.tags))

-- `deduped_records`, a dict in the order of its first keys
abbrev pub Deduped : Type 0
Deduped = List (Text × Found)

abbrev richer : Found → Found → Found
richer old new = if ltb (metadata_score old) (metadata_score new) then new else old

unfoldable pub keep_best : Text → Found → Deduped → Deduped
unfolding ◌=?◌
keep_best url r [] = (url, r) ∷ []
keep_best url r ((u, old) ∷ rest) =
    let other = (u, old) ∷ keep_best url r rest in
    if u =? url then (u, richer old r) ∷ rest else other

-- The arguments of the code that is not modelled, and the filters of the crawl.
pub record Checks : Type 0 where
  pub clean : Text → Text
  pub is_valid : Text → Bool
  pub is_internal : Text → Bool
  pub is_saved : Text → Bool
  pub matches : Text → Text → Bool
  pub allowlist : List Text
  pub denylist : List Text

-- the tests of a URL, in the order of the code
unfoldable pub is_wanted : Checks → Text → Bool
is_wanted c url =
    not (is_empty url)
    && (c.is_valid url
        && (not (c.is_internal url)
            && url_passes_compiled_filters c.matches url c.allowlist c.denylist))

unfoldable pub dedupe : Checks → List Found → Deduped → Deduped
unfolding is_wanted keep_best
dedupe c [] kept = kept
dedupe c (r ∷ rs) kept =
    let url = c.clean (strip r.url) in
    let with_it = dedupe c rs (keep_best url r kept) in
    let without_it = dedupe c rs kept in if is_wanted c url then with_it else without_it

abbrev pub keys : Deduped → List Text
keys [] = []
keys ((u, r) ∷ rest) = u ∷ keys rest

-- `existing_scope`: every snapshot, or those of the crawl
abbrev pub scope : Bool → Crawl → Db → List Text
unfolding children
scope only_new self db =
    if only_new then map snapshot_url db.snapshots else map snapshot_url (children self db)

abbrev pub up_to : Option ℕ → List Text → List Text
up_to none urls = urls
up_to (some n) urls = take n urls

-- the URLs that become snapshots
unfoldable pub new_urls : Checks → Bool → ℕ → Crawl → List Found → Db → List Text
unfolding dedupe is_in select remaining_snapshot_capacity children
new_urls c only_new max_urls self records db =
    up_to (remaining_snapshot_capacity max_urls self db)
      (select (λ u. not (is_in u (scope only_new self db))) (keys (dedupe c records [])))

-- a new row, with the key that it gets
abbrev pub child : ℕ → ℕ → ℕ → Crawl → Text → Snapshot
child pk now depth self url = record {
  pk = pk;
  status = queued;
  retry_at = some now;
  modified_at = now;
  columns = record {
    crawl_id = self.pk;
    url = url;
    depth = depth;
    created_at = now;
    downloaded_at = none;
    output_size = 0;
    settings = 0;
    retry_plugins = [];
  };
}

abbrev pub rows_for : (Text → ℕ) → ℕ → ℕ → Crawl → List Text → List Snapshot
rows_for new_pk now depth self [] = []
rows_for new_pk now depth self (u ∷ us) =
    child (new_pk u) now depth self u ∷ rows_for new_pk now depth self us

-- The snapshots that are created, and the tables with them. `new_pk` is the key of a new row.
unfoldable pub create_discovered_snapshots :
    Checks → (Text → ℕ) → Bool → ℕ → ℕ → ℕ → Crawl → List Found → Db → List Snapshot × Db
unfolding new_urls select
create_discovered_snapshots c new_pk only_new max_urls now depth self records db =
    let saved = select c.is_saved (new_urls c only_new max_urls self records db) in
    let rows = rows_for new_pk now depth self saved in
    if eq_status self.status sealed || ltb self.columns.max_depth depth
    then ([], db)
    else (rows, record db { snapshots = db.snapshots ++ rows })
