-- ===== src/Search/Yields.antt =====
-- The ids that a search yields (archivebox/search/query.py).
use mathlib.Core.Option
use archive_box.Base.{
  ℕ, suc, ap, ◌≡◌, ◌≢◌, ◌⊎◌, inl, inr, ◌≤◌, ◌<◌, refl, Bool, true, false, ◌||◌, not, Option, some,
  none, List, [], ◌∷◌, ◌++◌, arith, length, Bool-cases, if-all, ==_iff, length-append, any,
}
use archive_box.Text.{Text, ◌=?◌}
use archive_box.Search.{
  Reply, Yield, Tally, returned, raised, mem, mem-append, is_full, after_turn, scan, visit,
  iter_query_search_ids, ask_backends, meta, deep, mode_of, get_search_mode_base,
  get_search_mode_backend, Backends, backend_names, Plan, ask, not_found, fall_back,
}

-- no id occurs twice
abbrev pub IsDistinct : List ℕ → Type 0
IsDistinct [] = Unit
IsDistinct (x ∷ xs) = (mem x xs ≡ false) × IsDistinct xs

snoc-IsDistinct :
    (xs : List ℕ) (x : ℕ) → IsDistinct xs → mem x xs ≡ false → IsDistinct (xs ++ x ∷ [])
unfolding mem
snoc-IsDistinct [] x d new = (refl, tt)
snoc-IsDistinct (y ∷ xs) x d new = (
  ground (arith, d.0, mem-append y xs (x ∷ []), ==_iff x y, ==_iff y x),
  snoc-IsDistinct xs x d.1 (ground (arith, new)),
)

-- what the loops keep of the ids that were seen
abbrev pub IsYield : ℕ → List ℕ → Type 0
IsYield max_results seen = IsDistinct seen × ((max_results ≡ 0) ⊎ (length seen ≤ max_results))

abbrev pub HasRoom : ℕ → List ℕ → Type 0
HasRoom max_results seen = IsDistinct seen × (max_results ≢ 0 → length seen < max_results)

abbrev Scanned : ℕ → List ℕ × Bool → Type 0
Scanned max_results (found, true) = IsYield max_results found
Scanned max_results (found, false) = HasRoom max_results found

scan-Scanned :
    (max_results : ℕ) (ids seen : List ℕ)
    → HasRoom max_results seen
    → Scanned max_results (scan max_results ids seen)
unfolding scan
scan-Scanned max_results [] seen h = h
scan-Scanned max_results (x ∷ ids) seen h = elim (Bool-cases (mem x seen)) [
  | inl old ↦ rw old (scan-Scanned max_results ids seen h)
  | inr new ↦
      let here = seen ++ x ∷ [] in
      let d = snoc-IsDistinct seen x h.0 new in
      let size = length-append seen (x ∷ []) in
      elim (Bool-cases (is_full max_results here)) [
        | inl full ↦ rw (new, full) (d, ground (arith, h.1, size))
        | inr room ↦ rw (new, room) (scan-Scanned max_results ids here (d, ground (arith, size)))
      ]
]

Scanned-weaken :
    (max_results : ℕ) (r : List ℕ × Bool) → Scanned max_results r → IsYield max_results r.0
Scanned-weaken max_results (found, true) h = h
Scanned-weaken max_results (found, false) h = (h.0, ground (arith, h.1))

Scanned-clear :
    (max_results : ℕ) (r : List ℕ × Bool)
    → r.1 ≡ false
    → Scanned max_results r
    → HasRoom max_results r.0
Scanned-clear max_results (found, true) clear h = cc
Scanned-clear max_results (found, false) clear h = h

mem-of_eq : (x y : ℕ) (xs : List ℕ) → y ≡ x → mem y xs ≡ mem x xs
mem-of_eq x y xs e = rw e refl

abbrev Yields : ℕ → Option Yield → Type 0
Yields max_results none = Unit
Yields max_results (some y) = IsYield max_results y.seen

after_turn-all :
    (P : Yield → Type 0) (halted full fails fallback : Bool) (a b c d e : Yield)
    → P a
    → P b
    → (full ≡ false → P c × P d)
    → P e
    → P (after_turn halted full fails fallback a b c d e)
after_turn-all P true full fails fallback a b c d e at_stop at_limit on at_error = at_stop
after_turn-all P false true fails fallback a b c d e at_stop at_limit on at_error = at_limit
after_turn-all P false false false fallback a b c d e at_stop at_limit on at_error = (on refl).0
after_turn-all P false false true true a b c d e at_stop at_limit on at_error = (on refl).1
after_turn-all P false false true false a b c d e at_stop at_limit on at_error = at_error

module _ (reply : Text → Reply) (stopped : Text → Bool) where
  visit-IsYield :
      (max_results : ℕ) (is_deep fallback : Bool) (names : List Text) (seen : List ℕ)
      (tally : Tally)
      → HasRoom max_results seen
      → IsYield max_results (visit reply stopped max_results is_deep fallback names seen tally).seen
  unfolding visit
  visit-IsYield max_results is_deep fallback [] seen tally h = (h.0, ground (arith, h.1))
  visit-IsYield max_results is_deep fallback (name ∷ names) seen tally h =
      let r = scan max_results (reply name).ids seen in
      let s = scan-Scanned max_results (reply name).ids seen h in
      let y = Scanned-weaken max_results r s in
      let P = λ (o : Yield). IsYield max_results o.seen in
      let on : (t : Tally)
          → r.1 ≡ false
          → P (visit reply stopped max_results is_deep fallback names r.0 t) =
        λ t clear.
          visit-IsYield max_results is_deep fallback names r.0 t
            (Scanned-clear max_results r clear s) in
      after_turn-all P (stopped name) r.1 (reply name).fails fallback
        (record { seen = seen; ending = returned }) (record { seen = r.0; ending = returned })
        (visit reply stopped max_results is_deep fallback names r.0
          (record tally { successful = suc tally.successful }))
        (visit reply stopped max_results is_deep fallback names r.0
          (record tally { errors = tally.errors ++ name ∷ [] }))
        (record { seen = r.0; ending = raised name }) (h.0, ground (arith, h.1)) y
        (λ clear. (
          on (record tally { successful = suc tally.successful }) clear,
          on (record tally { errors = tally.errors ++ name ∷ [] }) clear,
        ))
        y

  -- without a limit
  scan-all :
      (ids seen : List ℕ) (x : ℕ)
      → let r = scan 0 ids seen in (mem x r.0 ≡ (mem x seen || mem x ids)) × (r.1 ≡ false)
  unfolding scan mem
  scan-all [] seen x = (ground arith, refl)
  scan-all (y ∷ ids) seen x = ground (
    arith,
    scan-all ids seen x,
    scan-all ids (seen ++ y ∷ []) x,
    mem-append x seen (y ∷ []),
    ==_iff y x,
    mem-of_eq x y seen,
  )

  visit-all :
      (is_deep fallback : Bool) (names : List Text) (seen : List ℕ) (tally : Tally) (x : ℕ)
      → ((name : Text) → stopped name ≡ false)
      → ((name : Text) → (not (reply name).fails || fallback) ≡ true)
      → mem x (visit reply stopped 0 is_deep fallback names seen tally).seen
        ≡ (mem x seen || any (λ name. mem x (reply name).ids) names)
  unfolding visit any
  visit-all is_deep fallback [] seen tally x go fine = ground arith
  visit-all is_deep fallback (name ∷ names) seen tally x go fine =
      let found = (scan 0 (reply name).ids seen).0 in
      ground (
        arith,
        go name,
        fine name,
        scan-all (reply name).ids seen x,
        visit-all is_deep fallback names found (record tally { successful = suc tally.successful })
            x go fine,
        visit-all is_deep fallback names found (record tally { errors = tally.errors ++ name ∷ [] })
            x go fine,
      )

  ask_backends-Yields :
      (max_results : ℕ) (is_deep : Bool) (plan : Plan)
      → Yields max_results (ask_backends reply stopped max_results is_deep plan)
  ask_backends-Yields max_results is_deep not_found = tt
  ask_backends-Yields max_results is_deep fall_back = tt
  ask_backends-Yields max_results is_deep (ask fallback names) =
      visit-IsYield max_results is_deep fallback names [] (record { successful = 0; errors = [] })
        (tt, λ some_limit. ground (arith, some_limit))

  -- A search that yields never yields an id twice, and not more ids than the limit, where one is
  -- set, whatever backends raise and whenever the search is stopped.
  pub iter_query_search_ids-IsYield :
      (b : Backends) (search_mode : Option Text) (max_results : ℕ) (y : Yield)
      → iter_query_search_ids reply stopped b search_mode max_results ≡ some y
      → IsYield max_results y.seen
  unfolding iter_query_search_ids
  iter_query_search_ids-IsYield b search_mode max_results y h =
      let mode = some (mode_of b search_mode) in
      let base = get_search_mode_base b mode in
      let asked =
        ask_backends-Yields max_results (base =? deep)
          (backend_names b base (get_search_mode_backend b mode)) in
      let all : Yields max_results (iter_query_search_ids reply stopped b search_mode max_results) =
        if-all (Yields max_results) (base =? meta) (some (record { seen = []; ending = returned }))
          _ (λ _. (tt, inr (omega arith))) (λ _. asked) in
      rw h at all

  -- With no limit and no stop, and no backend that raises unless others are asked instead, a search
  -- that asks some backends yields exactly the ids that one of them answers.
  pub iter_query_search_ids-all :
      (b : Backends) (search_mode : Option Text) (fallback : Bool) (names : List Text) (x : ℕ)
      → let mode = some (mode_of b search_mode) in
        let base = get_search_mode_base b mode in
        (base =? meta) ≡ false
        → backend_names b base (get_search_mode_backend b mode) ≡ ask fallback names
        → ((name : Text) → stopped name ≡ false)
        → ((name : Text) → (not (reply name).fails || fallback) ≡ true)
        → Option.map
            (λ (y : Yield). mem x y.seen)
            (iter_query_search_ids reply stopped b search_mode 0)
          ≡ some (any (λ name. mem x (reply name).ids) names)
  unfolding iter_query_search_ids mem
  iter_query_search_ids-all b search_mode fallback names x search plan go fine =
      rw (search, plan)
        (ap some (visit-all _ fallback names [] (record { successful = 0; errors = [] }) x go fine))
