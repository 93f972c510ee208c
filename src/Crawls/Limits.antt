-- ===== src/Crawls/Limits.antt =====
-- The limits of a crawl and why it stops (archivebox/crawls/models.py). The values of the
-- configuration are natural numbers, where 0 is no limit; `clean` is `sanitize_extracted_url` after
-- `fix_url_from_markdown`, and `decode` is `json.loads` of a line.
use archive_box.Base.{
  ℕ, ◌+◌, ◌-◌, ◌≡◌, Bool, true, false, ◌&&◌, ◌||◌, not, Option, none, some, List, [], ◌∷◌, ◌++◌,
  ltb, leb, ◌==◌, arith, if◌then◌else◌, min, map, select, length, is_none, gt_option, or_else, any,
}
use archive_box.Text.{Text, is_empty, is_in, strip, rstrip, ◌=?◌}
use archive_box.Queue.Table.{paused, sealed, eq_status, count_where}
use archive_box.Queue.{seconds}
use archive_box.Db.{Crawl, Snapshot, Db, is_child}
use archive_box.Crawls.Urls.{Decoded, Entry, iter_url_lines, urls_of}

pub record Limits : Type 0 where
  pub crawl_timeout : ℕ
  pub crawl_max_size : ℕ
  pub crawl_max_urls : ℕ

-- the snapshots of a crawl
unfoldable pub children : Crawl → Db → List Snapshot
unfolding select
children self db = select (is_child self.pk) db.snapshots

-- a set of texts, as the list of its members
unfoldable pub distinct : List Text → List Text
unfolding is_in
distinct [] = []
distinct (s ∷ ss) = let rest = distinct ss in if is_in s rest then rest else s ∷ rest

abbrev pub snapshot_url : Snapshot → Text
snapshot_url s = s.columns.url

abbrev pub non_empty : List Text → List Text
non_empty [] = []
non_empty (s ∷ ss) = if is_empty s then non_empty ss else s ∷ non_empty ss

unfoldable pub count_urls_for_limit : (Text → Text) → (Text → Decoded) → Crawl → Db → ℕ
unfolding children distinct iter_url_lines
count_urls_for_limit clean decode self db =
    let listed = map (λ (e : Entry). clean (strip e.1)) (iter_url_lines decode self.columns.urls) in
    length (distinct (map snapshot_url (children self db) ++ non_empty listed))

unfoldable pub remaining_url_capacity : (Text → Text) → (Text → Decoded) → ℕ → Crawl → Db → Option ℕ
remaining_url_capacity clean decode max_urls self db =
    if max_urls == 0 then none else some (max_urls - count_urls_for_limit clean decode self db)

abbrev pub has_room : Option ℕ → Bool
has_room remaining = is_none remaining || gt_option remaining 0

unfoldable pub has_remaining_url_capacity : (Text → Text) → (Text → Decoded) → ℕ → Crawl → Db → Bool
unfolding remaining_url_capacity
has_remaining_url_capacity clean decode max_urls self db =
    has_room (remaining_url_capacity clean decode max_urls self db)

unfoldable pub remaining_snapshot_capacity : ℕ → Crawl → Db → Option ℕ
unfolding children
remaining_snapshot_capacity max_urls self db =
    if max_urls == 0 then none else some (max_urls - length (children self db))

unfoldable pub has_remaining_snapshot_capacity : ℕ → Crawl → Db → Bool
unfolding remaining_snapshot_capacity
has_remaining_snapshot_capacity max_urls self db =
    has_room (remaining_snapshot_capacity max_urls self db)

-- the empty text, and the reasons
pub data Reason : Type 0 where
  no_reason timed_out max_size_reached max_urls_reached is_on_hold no_viable_urls finished : Reason

abbrev earliest : Option ℕ → ℕ → ℕ
earliest none n = n
earliest (some a) n = min a n

-- `Min("created_at")` and `Sum("output_size")`
first_created : List Snapshot → Option ℕ
first_created [] = none
first_created (s ∷ ss) = some (earliest (first_created ss) s.columns.created_at)

total_size : List Snapshot → ℕ
total_size [] = 0
total_size (s ∷ ss) = s.columns.output_size + total_size ss

abbrev has_timed_out : ℕ → ℕ → Option ℕ → Bool
has_timed_out timeout now none = false
has_timed_out timeout now (some first) = leb (seconds timeout) (now - first)

-- `num_snapshots` is the count that a caller hands over, if it does
unfoldable pub limit_stop_reason :
    (Text → Text) → (Text → Decoded) → Limits → ℕ → Option ℕ → Crawl → Db → Reason
unfolding first_created total_size children
limit_stop_reason clean decode limits now num_snapshots self db =
    let all = children self db in
    let count = or_else num_snapshots (length all) in
    if not (limits.crawl_timeout == 0) && has_timed_out limits.crawl_timeout now (first_created all)
    then timed_out
    else if not (limits.crawl_max_size == 0) && leb limits.crawl_max_size (total_size all)
    then max_size_reached
    else if not (limits.crawl_max_urls == 0)
        && (leb limits.crawl_max_urls count
            && leb limits.crawl_max_urls (count_urls_for_limit clean decode self db))
    then max_urls_reached
    else no_reason

unfoldable pub lifecycle_stop_reason : Option ℕ → Option ℕ → Crawl → Db → Reason
unfolding children count_where
lifecycle_stop_reason num_snapshots num_sealed_snapshots self db =
    let all = children self db in
    let count = or_else num_snapshots (length all) in
    let count_sealed =
      or_else num_sealed_snapshots
        (count_where (λ (s : Snapshot). eq_status s.status sealed) all) in
    if eq_status self.status paused
    then is_on_hold
    else if not (eq_status self.status sealed)
    then no_reason
    else if count == 0
    then no_viable_urls
    else if leb count count_sealed
    then finished
    else no_reason

unfoldable pub stop_reason :
    (Text → Text) → (Text → Decoded) → Limits → ℕ → Option ℕ → Option ℕ → Crawl → Db → Reason
unfolding limit_stop_reason lifecycle_stop_reason
stop_reason clean decode limits now num_snapshots num_sealed_snapshots self db =
    elim (limit_stop_reason clean decode limits now num_snapshots self db) [
      | no_reason ↦ lifecycle_stop_reason num_snapshots num_sealed_snapshots self db
      | reason ↦ reason
    ]

-- What `add_url` is given beside the crawl: the entry's URL and depth.
pub record NewUrl : Type 0 where
  pub url : Text
  pub depth : ℕ

lstrip_breaks : Text → Text
lstrip_breaks [] = []
lstrip_breaks (c ∷ s) = let rest = lstrip_breaks s in if c == 10 then rest else c ∷ s

-- `passes` is `url_passes_filters`, `is_short` that `validate_url_length` raises nothing, and `dump`
-- is `json.dumps` of the entry with the cleaned URL. The second component is the text of the URLs.
unfoldable pub add_url :
    (Text → Text)
    → (Text → Decoded)
    → (Text → Bool)
    → (Text → Bool)
    → (Text → Text)
    → ℕ
    → NewUrl
    → Crawl
    → Db
    → Bool × Text
unfolding has_remaining_url_capacity lstrip_breaks any children is_in urls_of
add_url clean decode is_short passes dump max_urls entry self db =
    let url = clean (strip entry.url) in
    let urls = self.columns.urls in
    let refused =
      is_empty url
      || (not (is_short url)
          || (not (passes url)
              || (ltb self.columns.max_depth entry.depth
                  || (any (λ s. snapshot_url s =? url) (children self db)
                      || (is_in url (urls_of (iter_url_lines decode urls))
                          || not (has_remaining_url_capacity clean decode max_urls self db)))))) in
    if refused then (false, urls) else (true, lstrip_breaks (rstrip urls ++ 10 ∷ dump url))

-- A crawl that stops at its number of URLs, by its own count of snapshots, has room neither for a
-- snapshot nor for a URL.
pub limit_stop_reason-max_urls :
    (clean : Text → Text) (decode : Text → Decoded) (limits : Limits) (now : ℕ) (self : Crawl)
    (db : Db)
    → limit_stop_reason clean decode limits now none self db ≡ max_urls_reached
    → (has_remaining_snapshot_capacity limits.crawl_max_urls self db ≡ false)
      × (has_remaining_url_capacity clean decode limits.crawl_max_urls self db ≡ false)
unfolding limit_stop_reason has_remaining_snapshot_capacity has_remaining_url_capacity
    remaining_snapshot_capacity remaining_url_capacity
limit_stop_reason-max_urls clean decode limits now self db h = ground arith

-- A crawl that is neither paused nor sealed stops for a limit only: the reason is that of its limits.
pub stop_reason-running :
    (clean : Text → Text) (decode : Text → Decoded) (limits : Limits) (now : ℕ)
    (num_snapshots num_sealed_snapshots : Option ℕ) (self : Crawl) (db : Db)
    → eq_status self.status paused ≡ false
    → eq_status self.status sealed ≡ false
    → stop_reason clean decode limits now num_snapshots num_sealed_snapshots self db
      ≡ limit_stop_reason clean decode limits now num_snapshots self db
unfolding stop_reason lifecycle_stop_reason
stop_reason-running clean decode limits now num_snapshots num_sealed_snapshots self db active
      still =
    ground arith
