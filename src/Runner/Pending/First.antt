-- ===== src/Runner/Pending/First.antt =====
-- The work that a pass of `run_pending_crawls` of archivebox/services/runner.py selects.
use mathlib.Core.Option
use mathlib.Core.Path.{subst}
use archive_box.Base.{
  leb, ◌&&◌, ℕ, suc, ◌+◌, ◌≡◌, refl, Bool, true, false, Option, none, some, List, [], ◌∷◌,
  if◌then◌else◌, All, select, all, not, sym, ◌∙◌, ◌||◌, ◌≤◌, arith, Bool-cases, inl, inr,
}
use archive_box.Text.{Text}
use archive_box.Queue.Table.{Row}
use archive_box.Db.{Crawl, Db}
use archive_box.Crawls.Urls.{Decoded}
use archive_box.Snapshots.{◌>>=◌}
use archive_box.Runner.Turn.{Calls}
use archive_box.Runner.Pending.{
  Stage, stages, instant, of_crawls, is_new, due_snapshot, due_crawl, created_at, is_before,
  first_due_id, choose, Work, crawl_work, snapshot_work, Try, Pass, noted, give_turn, go_on, visit,
  run_stages, run_pending,
}
use archive_box.Runner.Pending.Queries.{
  Query, query, wanted_snapshot, wanted_crawl, goes_first, due_crawl-wanted, due_snapshot-wanted,
  before-goes_first,
}
use archive_box.Runner.Pending.Order.{IsIn, map-some, IsLeast, first_due_id-IsLeast}

-- A row of a table that meets a condition, and goes before every row that does.
abbrev pub IsFirst : {E : Type 0} → (Row E → ℕ) → Bool → (Row E → Bool) → List (Row E) → ℕ → Type 0
IsFirst {E} created newest wanted rows k =
    (r : Row E) × (r.pk ≡ k)
    × IsIn r rows
    × (wanted r ≡ true)
    × (all (λ q. not (wanted q) || goes_first created newest r q) rows ≡ true)

IsLeast-IsFirst :
    {E : Type 0} (created : Row E → ℕ) (g : Stage) (p wanted : Row E → Bool) (rows : List (Row E))
    (k : ℕ)
    → ((r : Row E) → p r ≡ wanted r)
    → IsLeast created (is_new g) p rows k
    → IsFirst created (query g).newest_first wanted rows k
unfolding all
IsLeast-IsFirst {E} created g p wanted rows k same (r, key, here, met, least) =
    (r, key, here, sym (same r) ∙ met, go rows least)
  where
    go :
        (qs : List (Row E))
        → All (λ q. p q ≡ true → is_before created (is_new g) r q ≡ true) qs
        → all (λ q. not (wanted q) || goes_first created (query g).newest_first r q) qs ≡ true
    go [] h = refl
    go (q ∷ qs) h = elim (Bool-cases (p q)) [
      | inl yes_ ↦ rw (sym (before-goes_first created g r q) ∙ h.0 yes_, go qs h.1) (ground arith)
      | inr unmet ↦ rw (sym (same q) ∙ unmet, go qs h.1) refl
    ]

module _ (crawl_created_at : Crawl → ℕ) (scope : Option ℕ) where
  -- The work is the first of the query of its stage, in the tables and at the instant of the query.
  IsChosenWork : Work → Query → ℕ → Db → Type 0
  IsChosenWork (snapshot_work k) q now db =
      IsFirst (λ s. s.columns.created_at) q.newest_first (wanted_snapshot q now scope db)
        db.snapshots k
  IsChosenWork (crawl_work k) q now db =
      IsFirst crawl_created_at q.newest_first (wanted_crawl q now scope) db.crawls k

  unfoldable pub IsChosen : Try → Type 0
  unfolding IsChosenWork
  IsChosen t = IsChosenWork t.work (query t.stage) t.now t.db

-- the places of the queries go up, from a first place
abbrev pub InOrder : ℕ → List Try → Type 0
InOrder place [] = Unit
InOrder place (t ∷ ts) = (place ≤ (query t.stage).place) × InOrder (suc (query t.stage).place) ts

InOrder-from : (a b : ℕ) (ts : List Try) → a ≤ b → InOrder b ts → InOrder a ts
InOrder-from a b [] le h = tt
InOrder-from a b (t ∷ ts) le h = (omega (arith, h.0), h.1)

module _ (e : Calls) (decode : Text → Decoded) (crawl_created_at : Crawl → ℕ)
    (scope : Option ℕ) where
  choose-IsChosen :
      (g : Stage) (now : ℕ) (db : Db) (w : Work)
      → choose e decode crawl_created_at scope g now db ≡ some w
      → IsChosen crawl_created_at scope (record { stage = g; work = w; now = now; db = db })
  unfolding choose IsChosen IsChosenWork
  choose-IsChosen g now db w h = go (of_crawls g) h
    where
      go :
          (b : Bool)
          → (if b
              then Option.map crawl_work (
                  first_due_id crawl_created_at
                    (is_new g)
                    (select (due_crawl g now scope) db.crawls))
              else Option.map snapshot_work (
                  first_due_id created_at
                    (is_new g)
                    (select (due_snapshot g now scope db) db.snapshots)))
            ≡ some w
          → IsChosenWork crawl_created_at scope w (query g) now db
      go true h =
          let (k, found, same) =
            map-some crawl_work
              (first_due_id crawl_created_at (is_new g) (select (due_crawl g now scope) db.crawls))
              w h in
          subst (λ v. IsChosenWork crawl_created_at scope v (query g) now db) same
            (IsLeast-IsFirst crawl_created_at g (due_crawl g now scope)
              (wanted_crawl (query g) now scope) db.crawls k (due_crawl-wanted g now scope)
              (first_due_id-IsLeast crawl_created_at (is_new g) (due_crawl g now scope) db.crawls k
                found))
      go false h =
          let (k, found, same) =
            map-some snapshot_work
              (first_due_id created_at (is_new g)
                (select (due_snapshot g now scope db) db.snapshots))
              w h in
          subst (λ v. IsChosenWork crawl_created_at scope v (query g) now db) same
            (IsLeast-IsFirst created_at g (due_snapshot g now scope db)
              (wanted_snapshot (query g) now scope db) db.snapshots k
              (due_snapshot-wanted g now scope db)
              (first_due_id-IsLeast created_at (is_new g) (due_snapshot g now scope db) db.snapshots
                k found))

  -- of the turns of a pass that is no exception
  Chosen : ℕ → Option Pass → Type 0
  Chosen place none = Unit
  Chosen place (some p) = All (IsChosen crawl_created_at scope) p.tries × InOrder place p.tries

  Chosen-from : (a b : ℕ) (o : Option Pass) → a ≤ b → Chosen b o → Chosen a o
  unfolding Chosen
  Chosen-from a b none le h = tt
  Chosen-from a b (some p) le h = (h.0, InOrder-from a b p.tries le h.1)

  visit-Chosen :
      (g : Stage) (w : Option Work) (at : ℕ) (clock : ℕ → ℕ) (db : Db) (rest : Db → Option Pass)
      → ((v : Work)
          → w ≡ some v
          → IsChosen crawl_created_at scope (record { stage = g; work = v; now = at; db = db }))
      → ((u : Db) → Chosen (suc (query g).place) (rest u))
      → Chosen (query g).place (visit e decode crawl_created_at scope g w at clock db rest)
  unfolding visit go_on Chosen
  visit-Chosen g none at clock db rest h later =
      Chosen-from (query g).place (suc (query g).place) (rest db) (omega arith) (later db)
  visit-Chosen g (some w) at clock db rest h later =
      go (give_turn e decode crawl_created_at scope w (λ n. clock (suc n)) db)
    where
      t : Try
      t = record { stage = g; work = w; now = at; db = db }

      place : ℕ
      place = (query g).place

      after : (o : Option Pass) → Chosen (suc place) o → Chosen place (Option.map (noted t) o)
      after none k = tt
      after (some p) k = ((h w refl, k.0), (omega arith, k.1))

      go :
          (o : Option (Bool × Db))
          → Chosen place (o >>= λ r. go_on e decode crawl_created_at scope t r rest)
      go none = tt
      go (some (true, u)) = ((h w refl, tt), (omega arith, tt))
      go (some (false, u)) = after (rest u) (later u)

  -- stages whose places go up
  go_up : ℕ → List Stage → Bool
  go_up place [] = true
  go_up place (g ∷ gs) = leb place (query g).place && go_up (suc (query g).place) gs

  run_stages-Chosen :
      (gs : List Stage) (place first : ℕ) (clock : ℕ → ℕ) (db : Db)
      → go_up place gs ≡ true
      → Chosen place (run_stages e decode crawl_created_at scope gs first clock db)
  unfolding run_stages Chosen go_up
  run_stages-Chosen [] place first clock db placed = (tt, tt)
  run_stages-Chosen (g ∷ gs) place first clock db placed =
      let at = instant g first (clock 0) in
      let rest = run_stages e decode crawl_created_at scope gs first (λ n. clock (100 + n)) in
      let w = choose e decode crawl_created_at scope g at db in
      Chosen-from place (query g).place (visit e decode crawl_created_at scope g w at clock db rest)
        (ground arith)
        (visit-Chosen g w at clock db rest (choose-IsChosen g at db) (λ u.
          run_stages-Chosen gs (suc (query g).place) first (λ n. clock (100 + n)) u (ground arith)))

  -- The turns of a pass that completes are given in the order of the table of queries, at most one for a
  -- query. Each is given to a row that is due at the instant of its query, in the scope of the pass, and
  -- has a status and, for a snapshot, a crawl with a status that the table asks for; and no such row in
  -- the tables at that time goes before it: by instant and then creation, the latest first for new
  -- submissions and the earliest first for the other queries.
  pub run_pending-IsChosen :
      (clock : ℕ → ℕ) (db : Db) (p : Pass)
      → run_pending e decode crawl_created_at scope clock db ≡ some p
      → All (IsChosen crawl_created_at scope) p.tries × InOrder 0 p.tries
  unfolding run_pending Chosen go_up
  run_pending-IsChosen clock db p ran =
      subst (Chosen 0) ran (run_stages-Chosen stages 0 (clock 0) clock db refl)
