-- ===== src/Crawls/Urls.antt =====
-- The URL list of a crawl (archivebox/crawls/models.py): the lines of `Crawl.urls`, their pruning,
-- the filter patterns and the tag names. `json.loads` of a line is the argument `decode`, and the
-- test of one pattern against a URL the argument `matches`.
pub mod Pruning
use archive_box.Base.{
  ℕ, Bool, true, false, ◌&&◌, ◌||◌, not, Option, none, some, List, [], ◌∷◌, if◌then◌else◌, any,
  length,
}
use archive_box.Text.{
  Text, is_empty, strip, rstrip, starts_with_hash, splitlines, join_lines, is_in, ◌=?◌,
}

-- What `json.loads(line)` gives: an error, an object with the text of its `url` (empty where it is
-- missing), or another value.
pub data Decoded : Type 0 where
  not_json : Decoded
  object : Text → Decoded
  other : Decoded

-- one entry of `_iter_url_lines`: the raw line, stripped on the right, and its URL
abbrev pub Entry : Type 0
Entry = Text × Text

entry_url : Decoded → Text → Text
entry_url not_json stripped = stripped
entry_url (object url) stripped = strip url
entry_url other stripped = stripped

unfoldable pub iter_lines : (Text → Decoded) → List Text → List Entry
unfolding entry_url
iter_lines decode [] = []
iter_lines decode (raw ∷ lines) =
    let stripped = strip raw in
    let rest = iter_lines decode lines in
    if is_empty stripped
    then rest
    else if starts_with_hash stripped
    then (rstrip raw, []) ∷ rest
    else (rstrip raw, entry_url (decode stripped) stripped) ∷ rest

unfoldable pub iter_url_lines : (Text → Decoded) → Text → List Entry
unfolding iter_lines splitlines
iter_url_lines decode urls = iter_lines decode (splitlines urls)

-- `[url for _raw_line, url in entries if url]`
unfoldable pub urls_of : List Entry → List Text
urls_of [] = []
urls_of ((raw, url) ∷ entries) =
    let rest = urls_of entries in if is_empty url then rest else url ∷ rest

unfoldable pub get_urls_list : (Text → Decoded) → Text → List Text
unfolding iter_url_lines urls_of
get_urls_list decode urls = if is_empty urls then [] else urls_of (iter_url_lines decode urls)

unfoldable pub can_start : (Text → Decoded) → Text → Bool
unfolding get_urls_list
can_start decode urls =
    not (is_empty urls) && elim (get_urls_list decode urls) [ [] ↦ false | _ ∷ _ ↦ true ]

-- the loop of `prune_urls`: the lines that it keeps, and the URLs that it removes
unfoldable pub kept_lines : (Text → Bool) → List Entry → List Text
kept_lines predicate [] = []
kept_lines predicate ((raw, url) ∷ entries) =
    let rest = kept_lines predicate entries in
    if is_empty url then raw ∷ rest else if predicate url then rest else raw ∷ rest

unfoldable pub removed_urls : (Text → Bool) → List Entry → List Text
removed_urls predicate [] = []
removed_urls predicate ((raw, url) ∷ entries) =
    let rest = removed_urls predicate entries in
    if is_empty url then rest else if predicate url then url ∷ rest else rest

-- `prune_urls`: the new text and the removed URLs. The text is saved if it differs.
unfoldable pub prune_urls : (Text → Decoded) → (Text → Bool) → Text → Text × List Text
unfolding kept_lines removed_urls iter_url_lines join_lines
prune_urls decode predicate urls =
    let entries = iter_url_lines decode urls in
    (join_lines (kept_lines predicate entries), removed_urls predicate entries)

unfoldable pub prune_url : (Text → Decoded) → Text → Text → Text × ℕ
unfolding prune_urls
prune_url decode url urls =
    let target = strip url in
    let (next, removed) = prune_urls decode (λ candidate. candidate =? target) urls in
    (next, length removed)

-- `split_filter_patterns` over the raw values of a list; `seen` holds the patterns so far
unique_patterns : List Text → List Text → List Text
unique_patterns seen [] = []
unique_patterns seen (raw ∷ values) =
    let pattern = strip raw in
    let skip = unique_patterns seen values in
    let keep = pattern ∷ unique_patterns (pattern ∷ seen) values in
    if is_empty pattern || is_in pattern seen then skip else keep

-- a list, a text, or a value of another type
pub data PatternValue : Type 0 where
  list : List Text → PatternValue
  str : Text → PatternValue
  unsupported : PatternValue

unfoldable pub split_filter_patterns : PatternValue → List Text
unfolding unique_patterns splitlines
split_filter_patterns (list values) = unique_patterns [] values
split_filter_patterns (str value) = unique_patterns [] (splitlines value)
split_filter_patterns unsupported = []

-- the loop over the denylist returns at the first match
unfoldable pub denied : (Text → Text → Bool) → Text → List Text → Bool
denied matches url [] = false
denied matches url (pattern ∷ patterns) =
    let rest = denied matches url patterns in if matches url pattern then true else rest

unfoldable pub url_passes_compiled_filters :
    (Text → Text → Bool) → Text → List Text → List Text → Bool
unfolding denied any
url_passes_compiled_filters matches url [] denylist =
    if denied matches url denylist then false else true
url_passes_compiled_filters matches url (p ∷ ps) denylist =
    if denied matches url denylist then false else any (matches url) (p ∷ ps)

-- `set_url_filters`: the config entries after it, each one joined or removed
unfoldable pub filter_entry : PatternValue → Option Text
unfolding split_filter_patterns join_lines
filter_entry value = elim (split_filter_patterns value) [
  | [] ↦ none
  | p ∷ ps ↦ some (join_lines (p ∷ ps))
]
