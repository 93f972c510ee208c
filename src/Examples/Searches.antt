-- ===== src/Examples/Searches.antt =====
-- Searches and the memory checks at concrete inputs.
use archive_box.Base.{ℕ, ◌≡◌, ◌&&◌, refl, Bool, true, false, none, some, List, [], ◌∷◌, any}
use archive_box.Text.{Text, ◌=?◌}
use archive_box.Search.{
  Backends, Reply, Yield, returned, sonic, ripgrep, meta, mem, iter_query_search_ids,
  get_search_mode_base, get_search_mode_backend, mode_of, backend_names, ask,
}
use archive_box.Search.Yields.{IsYield, iter_query_search_ids-IsYield}
use archive_box.Search.Ranking.{Options, prioritize_within, apply_snapshot_search, ranks, overflows}
use archive_box.Search.Ranking.Waves.{Searched}
use archive_box.Search.Ranking.Found.{
  in_slices, prioritize_within-mem, apply_snapshot_search-Within,
}
use archive_box.Admission.Pressure.{Stall, PressureFile, Admission}

abbrev backends : Backends
backends = record { engine = sonic; names = ripgrep ∷ sonic ∷ [] }

abbrev reply : Text → Reply
reply name = record { ids = 3 ∷ 4 ∷ 3 ∷ 5 ∷ []; fails = false }

abbrev running : Text → Bool
running name = false

abbrev first_two : Yield
first_two = record { seen = 3 ∷ 4 ∷ []; ending = returned }

searched : iter_query_search_ids reply running backends none 2 ≡ some first_two
unfolding iter_query_search_ids ◌=?◌ get_search_mode_base archive_box.Text.lstrip
    archive_box.Text.rstrip archive_box.Text.is_space backend_names get_search_mode_backend
    archive_box.Search.visit
searched = refl

iter_query_search_ids-IsYield_example : IsYield 2 (3 ∷ 4 ∷ [])
iter_query_search_ids-IsYield_example =
    iter_query_search_ids-IsYield reply running backends none 2 first_two searched

few_ranks : overflows 2 (ranks 2 (3 ∷ []) (4 ∷ 3 ∷ []) []) ≡ false
unfolding ranks
few_ranks = refl

prioritize_within-mem_example :
    mem 4 (prioritize_within 2 true (3 ∷ 4 ∷ 5 ∷ []) (3 ∷ []) (4 ∷ 3 ∷ []) [])
    ≡ (mem 4 (3 ∷ 4 ∷ 5 ∷ []) && in_slices 2 (3 ∷ []) (4 ∷ 3 ∷ []) [] 4)
prioritize_within-mem_example =
    prioritize_within-mem 2 true (3 ∷ 4 ∷ 5 ∷ []) (3 ∷ []) (4 ∷ 3 ∷ []) [] 4 few_ranks

abbrev searched_row : ℕ → Searched
searched_row pk = record {
  id = [];
  title = 97 ∷ [];
  url = [];
  timestamp = [];
  tags = [];
  notes = [];
  crawl_notes = [];
  crawl_label = [];
  username = [];
  config_values = [];
}

abbrev options : Options
options = record {
  search_mode = some meta;
  has_ordering = true;
  max_results = 0;
  skip_backend_when_metadata_satisfies_limit = false;
  include_metadata_for_forced_backend = false;
  include_id_matches = false;
}

finds_four :
    mem 4 (
      apply_snapshot_search
        (λ mode. 9 ∷ [])
        searched_row
        true
        backends
        options
        (3 ∷ 4 ∷ [])
        (97 ∷ []))
    ≡ true
unfolding apply_snapshot_search mem archive_box.Search.Ranking.chosen archive_box.Text.strip
    archive_box.Text.lstrip archive_box.Text.rstrip archive_box.Text.is_space ◌=?◌
    get_search_mode_base any archive_box.Search.Ranking.Waves.snapshot_metadata_search_waves
finds_four = refl

apply_snapshot_search-Within_example : mem 4 (3 ∷ 4 ∷ []) ≡ true
apply_snapshot_search-Within_example =
    apply_snapshot_search-Within (λ mode. 9 ∷ []) searched_row true backends options (3 ∷ 4 ∷ [])
      (97 ∷ []) 4 finds_four

abbrev sample : Stall
sample = record { source = 1; total = 100; sampled_at = 5000000 }

abbrev unchecked : Admission
unchecked = record { stalls = []; checked_at = none; reason = [] }

abbrev pressure_files : List PressureFile
pressure_files = record { path = 1; full = some (1500, 100) } ∷ []
