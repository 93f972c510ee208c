-- ===== src/Search.antt =====
-- archivebox/search: the modes of a search (config.py), and which backends a search asks, in which
-- order, and which ids it yields (query.py). A backend is a plugin; what it answers is an argument.
mod Mem
pub mod Yields
pub mod Ranking
unfoldable pub use Mem.*
use archive_box.Base.{
  ℕ, suc, Bool, true, false, ◌&&◌, ◌||◌, not, Option, none, some, List, [], ◌∷◌, ◌++◌, ◌==◌, leb,
  if◌then◌else◌, or_else, select, length, is_none,
}
use archive_box.Text.{Text, is_empty, is_in, strip, ◌=?◌}
use archive_box.Text.Case.{lower, without, replace_char, split_once}

-- `"meta"`, `"contents"`, `"content"`, `"deep"`, `"ripgrep"` and `"sonic"`
abbrev pub meta : Text
meta = 109 ∷ 101 ∷ 116 ∷ 97 ∷ []

abbrev pub content : Text
content = 99 ∷ 111 ∷ 110 ∷ 116 ∷ 101 ∷ 110 ∷ 116 ∷ []

abbrev pub contents : Text
contents = 99 ∷ 111 ∷ 110 ∷ 116 ∷ 101 ∷ 110 ∷ 116 ∷ 115 ∷ []

abbrev pub deep : Text
deep = 100 ∷ 101 ∷ 101 ∷ 112 ∷ []

abbrev pub ripgrep : Text
ripgrep = 114 ∷ 105 ∷ 112 ∷ 103 ∷ 114 ∷ 101 ∷ 112 ∷ []

abbrev pub sonic : Text
sonic = 115 ∷ 111 ∷ 110 ∷ 105 ∷ 99 ∷ []

abbrev pub search_modes : List Text
search_modes = meta ∷ contents ∷ deep ∷ []

abbrev pub colon : ℕ
colon = 58

unfoldable pub normalize_search_backend_name : Text → Text
unfolding strip lower replace_char
normalize_search_backend_name name = replace_char 45 95 (lower (strip name))

-- The configured engine, and the names of the plugins that can search.
pub record Backends : Type 0 where
  pub engine : Text
  pub names : List Text

unfoldable pub get_default_search_mode : Backends → Text
unfolding normalize_search_backend_name is_in
get_default_search_mode b =
    let name = normalize_search_backend_name b.engine in
    if is_in name b.names
    then deep ++ colon ∷ name
    else if is_in ripgrep b.names
    then deep ++ colon ∷ ripgrep
    else contents

abbrev full_word : Text → Text
full_word mode = if mode =? content then contents else mode

-- `none` is `None`
unfoldable pub get_search_mode : Backends → Option Text → Text
unfolding get_default_search_mode normalize_search_backend_name is_in ◌=?◌ strip lower without
    split_once
get_search_mode b search_mode =
    let normalized = full_word (without 32 (lower (strip (or_else search_mode [])))) in
    if is_in normalized search_modes then normalized else elim (split_once colon normalized) [
      | none ↦ get_default_search_mode b
      | some (head, tail) ↦
          let name = normalize_search_backend_name tail in
          let mode = full_word head in
          if is_in mode (contents ∷ deep ∷ []) && is_in name b.names
          then mode ++ colon ∷ name
          else get_default_search_mode b
    ]

unfoldable pub get_search_mode_base : Backends → Option Text → Text
unfolding get_search_mode split_once
get_search_mode_base b search_mode =
    let mode = get_search_mode b search_mode in
    elim (split_once colon mode) [ none ↦ mode | some (head, tail) ↦ head ]

unfoldable pub get_search_mode_backend : Backends → Option Text → Option Text
unfolding get_search_mode split_once
get_search_mode_backend b search_mode = elim (split_once colon (get_search_mode b search_mode)) [
  | none ↦ none
  | some (head, tail) ↦ some tail
]

abbrev pub when : Bool → Text → List Text
when b name = if b then name ∷ [] else []

-- the backends but for `name` and ripgrep
abbrev pub others : Text → List Text → List Text
others name names = select (λ n. not (is_in n (name ∷ ripgrep ∷ []))) names

-- What a search asks: backends in their order, or none of them, or an error.
pub data Plan : Type 0 where
  ask : Bool → List Text → Plan
  not_found : Plan
  fall_back : Plan

abbrev pub is_fallback : Text → Text → Bool
is_fallback forced configured = (forced =? configured) && (configured =? sonic)

-- the choice of `backend_names`, with `fallback_enabled`; `fall_back` ends in `get_backend()`
unfoldable pub backend_names : Backends → Text → Option Text → Plan
unfolding is_in ◌=?◌ select normalize_search_backend_name
backend_names b base forced =
    let configured = normalize_search_backend_name b.engine in
    elim forced [
      | some f ↦
          let fallback = (base =? deep) && is_fallback f configured in
          if not (is_in f b.names)
          then not_found
          else if fallback
          then ask true
              (f ∷ others f b.names ++ when (is_in ripgrep b.names && not (f =? ripgrep)) ripgrep)
          else ask false (f ∷ [])
      | none ↦
          if base =? deep
          then ask true (
              when (is_in configured b.names && not (configured =? ripgrep)) configured
              ++ others configured b.names
              ++ when (is_in ripgrep b.names) ripgrep)
          else if is_in configured b.names
          then ask false (configured ∷ [])
          else if is_in ripgrep b.names
          then ask false (ripgrep ∷ [])
          else fall_back
    ]

-- What a backend's command yields, and whether it raises after that.
pub record Reply : Type 0 where
  pub ids : List ℕ
  pub fails : Bool

pub data Ending : Type 0 where
  returned : Ending
  raised : Text → Ending

-- The ids that are yielded, in their order, and the end.
pub record Yield : Type 0 where
  pub seen : List ℕ
  pub ending : Ending

-- `max_results and len(seen) >= max_results`
abbrev pub is_full : ℕ → List ℕ → Bool
is_full max_results seen = not (max_results == 0) && leb max_results (length seen)

-- the loop over the ids of a backend: what was seen, and whether the limit ended it
unfoldable pub scan : ℕ → List ℕ → List ℕ → List ℕ × Bool
unfolding mem
scan max_results [] seen = (seen, false)
scan max_results (x ∷ ids) seen =
    let skip = scan max_results ids seen in
    let here = seen ++ x ∷ [] in
    let more = scan max_results ids here in
    if mem x seen then skip else if is_full max_results here then (here, true) else more

-- `successful_backends`, and the backends that raised
pub record Tally : Type 0 where
  pub successful : ℕ
  pub errors : List Text

abbrev pub ended : Bool → Tally → Ending
ended is_deep tally = elim tally.errors [
  | [] ↦ returned
  | e ∷ _ ↦ if (tally.successful == 0) && is_deep then raised e else returned
]

-- The end of a backend's turn: the stop event, the limit, a success, a failure with other backends
-- left to ask, and a failure.
abbrev pub after_turn : Bool → Bool → Bool → Bool → Yield → Yield → Yield → Yield → Yield → Yield
after_turn halted full fails fallback at_stop at_limit succeeded failed at_error =
    if halted
    then at_stop
    else if full
    then at_limit
    else if not fails
    then succeeded
    else if fallback
    then failed
    else at_error

-- the loop over the backends
unfoldable pub visit :
    (Text → Reply) → (Text → Bool) → ℕ → Bool → Bool → List Text → List ℕ → Tally → Yield
unfolding scan
visit reply stopped max_results is_deep fallback [] seen tally = record {
  seen = seen;
  ending = ended is_deep tally;
}
visit reply stopped max_results is_deep fallback (name ∷ names) seen tally =
    let (found, full) = scan max_results (reply name).ids seen in
    let succeeded =
      visit reply stopped max_results is_deep fallback names found
        (record tally { successful = suc tally.successful }) in
    let failed =
      visit reply stopped max_results is_deep fallback names found
        (record tally { errors = tally.errors ++ name ∷ [] }) in
    after_turn (stopped name) full (reply name).fails fallback
      (record { seen = seen; ending = returned }) (record { seen = found; ending = returned })
      succeeded failed (record { seen = found; ending = raised name })

-- the mode that a search runs in
abbrev pub mode_of : Backends → Option Text → Text
mode_of b search_mode = elim search_mode [ none ↦ contents | some m ↦ get_search_mode b (some m) ]

-- `none` as a result is the error for a backend that is not there
abbrev pub ask_backends : (Text → Reply) → (Text → Bool) → ℕ → Bool → Plan → Option Yield
ask_backends reply stopped max_results is_deep not_found = none
ask_backends reply stopped max_results is_deep fall_back = none
ask_backends reply stopped max_results is_deep (ask fallback names) = some (
    visit reply stopped max_results is_deep fallback names []
      (record { successful = 0; errors = [] }))

-- `stopped` tells before which backend the `stop_event` is set.
unfoldable pub iter_query_search_ids :
    (Text → Reply) → (Text → Bool) → Backends → Option Text → ℕ → Option Yield
iter_query_search_ids reply stopped b search_mode max_results =
    let mode = some (mode_of b search_mode) in
    let base = get_search_mode_base b mode in
    if base =? meta
    then some (record { seen = []; ending = returned })
    else ask_backends reply stopped max_results (base =? deep)
        (backend_names b base (get_search_mode_backend b mode))
