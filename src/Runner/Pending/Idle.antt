-- ===== src/Runner/Pending/Idle.antt =====
-- A pass of `run_pending_crawls` of archivebox/services/runner.py that finds nothing to do.
use mathlib.Core.Option
use mathlib.Core.Path.{subst}
use archive_box.Base.{
  ℕ, suc, ◌+◌, ◌≤◌, ◌≡◌, refl, Bool, true, false, ◌&&◌, Option, none, some, List, [], ◌∷◌, arith,
  if◌then◌else◌, lte_option, All, All-map, All-both, if-all, select,
}
use archive_box.Text.{Text}
use archive_box.Queue.Table.{Status, queued, started, sealed, eq_status}
use archive_box.Queue.{is_in}
use archive_box.Db.{Crawl, Db, open_states}
use archive_box.Crawls.Urls.{Decoded}
use archive_box.Snapshots.{◌>>=◌}
use archive_box.Runner.Turn.{Calls}
use archive_box.Runner.Pending.{
  Stage, stages, instant, reuses_instant, submitted_crawls, started_crawls, of_crawls, is_new,
  due_snapshot, due_crawl, in_scope, created_at, first_due_id, choose, Work, crawl_work,
  snapshot_work, Try, Pass, noted, give_turn, go_on, visit, run_stages, run_pending,
}
use archive_box.Runner.Pending.Order.{select-none, map-none, first_due_id-none}

either_status :
    (status : Status) (due there : Bool)
    → (due && (is_in status open_states && there)) ≡ false
    → (due && (eq_status status sealed && there)) ≡ false
    → (due && (is_in status (sealed ∷ open_states) && there)) ≡ false
either_status status due there h k = ground arith

each_status :
    (status : Status) (due there : Bool)
    → (due && (eq_status status queued && there)) ≡ false
    → (due && (eq_status status started && there)) ≡ false
    → (due && (eq_status status sealed && there)) ≡ false
    → (due && (is_in status (queued ∷ started ∷ sealed ∷ []) && there)) ≡ false
each_status status due there h k l = ground arith

module _ (scope : Option ℕ) where
  -- no row of the stage's query at an instant
  UnwantedRows : Bool → Stage → ℕ → Db → Type 0
  UnwantedRows true g now db = All (λ c. due_crawl g now scope c ≡ false) db.crawls
  UnwantedRows false g now db = All (λ s. due_snapshot g now scope db s ≡ false) db.snapshots

  Unwanted : Stage → ℕ → Db → Type 0
  Unwanted g = UnwantedRows (of_crawls g) g

  earlier :
      (b : Bool) (g : Stage) (now later : ℕ) (db : Db)
      → now ≤ later
      → UnwantedRows b g later db
      → UnwantedRows b g now db
  unfolding UnwantedRows
  earlier true g now later db le h = All-map _ _ db.crawls (λ c q. ground arith) h
  earlier false g now later db le h = All-map _ _ db.snapshots (λ s q. ground arith) h

module _ (e : Calls) (decode : Text → Decoded) (crawl_created_at : Crawl → ℕ)
    (scope : Option ℕ) where
  choose-none :
      (g : Stage) (now : ℕ) (db : Db)
      → choose e decode crawl_created_at scope g now db ≡ none
      → Unwanted scope g now db
  unfolding choose Unwanted UnwantedRows
  choose-none g now db h = go (of_crawls g) h
    where
      go :
          (b : Bool)
          → (if b
              then Option.map crawl_work (
                  first_due_id crawl_created_at
                    (is_new g)
                    (select (due_crawl g now scope) db.crawls))
              else Option.map snapshot_work (
                  first_due_id created_at
                    (is_new g)
                    (select (due_snapshot g now scope db) db.snapshots)))
            ≡ none
          → UnwantedRows scope b g now db
      go true h =
          select-none (due_crawl g now scope) db.crawls
            (first_due_id-none crawl_created_at (is_new g) _ (map-none crawl_work _ h))
      go false h =
          select-none (due_snapshot g now scope db) db.snapshots
            (first_due_id-none created_at (is_new g) _ (map-none snapshot_work _ h))

  -- A turn leaves its entry in the pass.
  Tries : Try → Option Pass → Type 0
  Tries t none = Unit
  Tries t (some p) = (ts : List Try) × (p.tries ≡ t ∷ ts)

  tried :
      (g : Stage) (w : Work) (at : ℕ) (clock : ℕ → ℕ) (db : Db) (rest : Db → Option Pass)
      → Tries
          (record { stage = g; work = w; now = at; db = db })
          (visit e decode crawl_created_at scope g (some w) at clock db rest)
  unfolding visit Tries go_on
  tried g w at clock db rest =
      go (give_turn e decode crawl_created_at scope w (λ n. clock (suc n)) db)
    where
      t : Try
      t = record { stage = g; work = w; now = at; db = db }

      after : (o : Option Pass) → Tries t (Option.map (noted t) o)
      after none = tt
      after (some p) = (p.tries, refl)

      go :
          (o : Option (Bool × Db))
          → Tries t (o >>= λ r. go_on e decode crawl_created_at scope t r rest)
      go none = tt
      go (some (true, u)) = ([], refl)
      go (some (false, u)) = after (rest u)

  -- what a pass without a turn shows of its stages
  Idle : ℕ → Db → List Stage → Option Pass → Type 0
  Idle now db gs none = Unit
  Idle now db gs (some p) =
      p.tries ≡ [] → (p.db ≡ db) × (p.progress ≡ false) × All (λ g. Unwanted scope g now db) gs

  Tries-Idle :
      (t : Try) (now : ℕ) (db : Db) (gs : List Stage) (o : Option Pass)
      → Tries t o
      → Idle now db gs o
  unfolding Tries Idle
  Tries-Idle t now db gs none h = tt
  Tries-Idle t now db gs (some p) (ts, h) = λ empty. cc

  visit-Idle :
      (g : Stage) (gs : List Stage) (w : Option Work) (at : ℕ) (clock : ℕ → ℕ) (now : ℕ) (db : Db)
      (rest : Db → Option Pass)
      → (w ≡ none → Unwanted scope g now db)
      → Idle now db gs (rest db)
      → Idle now db (g ∷ gs) (visit e decode crawl_created_at scope g w at clock db rest)
  unfolding visit Idle
  visit-Idle g gs none at clock now db rest h later = go (rest db) later
    where
      go : (o : Option Pass) → Idle now db gs o → Idle now db (g ∷ gs) o
      go none f = tt
      go (some p) f = λ empty. let r = f empty in (r.0, r.1, (h refl, r.2))
  visit-Idle g gs (some w) at clock now db rest h later =
      Tries-Idle (record { stage = g; work = w; now = at; db = db }) now db (g ∷ gs)
        (visit e decode crawl_created_at scope g (some w) at clock db rest)
        (tried g w at clock db rest)

  run_stages-Idle :
      (gs : List Stage) (first : ℕ) (clock : ℕ → ℕ) (now : ℕ) (db : Db)
      → now ≤ first
      → ((n : ℕ) → now ≤ clock n)
      → Idle now db gs (run_stages e decode crawl_created_at scope gs first clock db)
  unfolding run_stages Idle Unwanted
  run_stages-Idle [] first clock now db start le = λ empty. (refl, refl, tt)
  run_stages-Idle (g ∷ gs) first clock now db start le =
      let at = instant g first (clock 0) in
      visit-Idle g gs (choose e decode crawl_created_at scope g at db) at clock now db
        (run_stages e decode crawl_created_at scope gs first (λ n. clock (100 + n)))
        (λ nothing.
          earlier scope (of_crawls g) g now at db
            (if-all (λ t. now ≤ t) (reuses_instant g) first (clock 0) (λ _. start) (λ _. le 0))
            (choose-none g at db nothing))
        (run_stages-Idle gs first (λ n. clock (100 + n)) now db start (λ n. le (100 + n)))

  -- A pass that completes without a turn changes nothing and has made no progress, and at its first
  -- reading of a clock that never goes back behind that, no snapshot in its scope that is open or sealed is
  -- due, and no crawl in its scope that is queued, started or sealed.
  pub run_pending-idle :
      (clock : ℕ → ℕ) (db : Db) (p : Pass)
      → ((n : ℕ) → clock 0 ≤ clock n)
      → run_pending e decode crawl_created_at scope clock db ≡ some p
      → p.tries ≡ []
      → (p.db ≡ db)
        × (p.progress ≡ false)
        × All
            (λ s.
              (lte_option s.retry_at (clock 0)
                && (is_in s.status (sealed ∷ open_states) && in_scope scope s.columns.crawl_id))
              ≡ false)
            db.snapshots
        × All
            (λ c.
              (lte_option c.retry_at (clock 0)
                && (is_in c.status (queued ∷ started ∷ sealed ∷ []) && in_scope scope c.pk))
              ≡ false)
            db.crawls
  unfolding run_pending Idle Unwanted UnwantedRows
  run_pending-idle clock db p le ran empty =
      let r =
        subst (Idle (clock 0) db stages) ran
          (run_stages-Idle stages (clock 0) clock (clock 0) db (le 0) le) empty in
      (r.0, r.1, snapshots_idle r.2, crawls_idle r.2)
    where
      now : ℕ
      now = clock 0

      snapshots_idle :
          All (λ g. Unwanted scope g now db) stages
          → All
              (λ s.
                (lte_option s.retry_at now
                  && (is_in s.status (sealed ∷ open_states) && in_scope scope s.columns.crawl_id))
                ≡ false)
              db.snapshots
      snapshots_idle (_, (_, (_, (_, (_, (_, (open_, (closed, _)))))))) =
          All-both _ _ _ db.snapshots
            (λ s h k.
              either_status s.status (lte_option s.retry_at now) (in_scope scope s.columns.crawl_id)
                h k)
            open_ closed

      crawls_idle :
          All (λ g. Unwanted scope g now db) stages
          → All
              (λ c.
                (lte_option c.retry_at now
                  && (is_in c.status (queued ∷ started ∷ sealed ∷ []) && in_scope scope c.pk))
                ≡ false)
              db.crawls
      crawls_idle (_, (waiting, (_, (begun, (_, (_, (_, (_, (closed, _))))))))) =
          All-both _ _ _ db.crawls
            (λ c h k.
              each_status c.status (lte_option c.retry_at now) (in_scope scope c.pk) h.0 h.1 k)
            (All-both _ _
              (λ c.
                (due_crawl submitted_crawls now scope c ≡ false)
                × (due_crawl started_crawls now scope c ≡ false))
              db.crawls (λ c h k. (h, k)) waiting begun)
            closed
