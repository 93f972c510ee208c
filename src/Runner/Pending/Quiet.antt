-- ===== src/Runner/Pending/Quiet.antt =====
-- A pass of `run_pending_crawls` of archivebox/services/runner.py over tables with nothing due.
use archive_box.Base.{
  if-all, ℕ, ◌+◌, ◌≡◌, refl, Bool, true, false, ◌&&◌, not, Option, none, some, List, [], ◌∷◌, arith,
  if◌then◌else◌, lte_option, any, select,
}
use archive_box.Text.{Text}
use archive_box.Queue.Table.{Row}
use archive_box.Db.{Crawl, Db}
use archive_box.Crawls.Urls.{Decoded}
use archive_box.Runner.Turn.{Calls}
use archive_box.Runner.Pending.{
  instant, reuses_instant, Stage, stages, wants_crawl, wants_snapshot, of_crawls, in_scope,
  first_of, first_due_id, choose, Work, visit, run_stages, run_pending,
}

-- nothing is due, so that a query selects nothing
select-early :
    {E : Type 0} (now : ℕ) (p : Row E → Bool) (rows : List (Row E))
    → any (λ r. lte_option r.retry_at now) rows ≡ false
    → select (λ r. lte_option r.retry_at now && p r) rows ≡ []
unfolding any select
select-early now p [] h = refl
select-early now p (r ∷ rows) h =
    let early : lte_option r.retry_at now ≡ false = ground arith in
    rw early (select-early now p rows (ground arith))

-- the two tables have no row that is due at an instant
abbrev pub is_quiet : Db → ℕ → Bool
is_quiet db now =
    not (any (λ r. lte_option r.retry_at now) db.snapshots)
    && not (any (λ r. lte_option r.retry_at now) db.crawls)

module _ (e : Calls) (decode : Text → Decoded) (crawl_created_at : Crawl → ℕ)
    (scope : Option ℕ) where
  choose-quiet :
      (g : Stage) (now : ℕ) (db : Db)
      → is_quiet db now ≡ true
      → choose e decode crawl_created_at scope g now db ≡ none
  unfolding choose first_due_id first_of
  choose-quiet g now db h =
      rw
        (
          select-early now (λ c. wants_crawl g c && in_scope scope c.pk) db.crawls (ground arith),
          select-early now (λ s. wants_snapshot g db s && in_scope scope s.columns.crawl_id)
              db.snapshots (ground arith),
        )
        (go (of_crawls g))
    where
      nothing : Option Work
      nothing = none

      go : (b : Bool) → (if b then nothing else nothing) ≡ nothing
      go true = refl
      go false = refl

  run_stages-quiet :
      (gs : List Stage) (first : ℕ) (clock : ℕ → ℕ) (db : Db)
      → is_quiet db first ≡ true
      → ((n : ℕ) → is_quiet db (clock n) ≡ true)
      → run_stages e decode crawl_created_at scope gs first clock db
        ≡ some (record { tries = []; progress = false; db = db })
  unfolding run_stages visit
  run_stages-quiet [] first clock db start h = refl
  run_stages-quiet (g ∷ gs) first clock db start h =
      let at = instant g first (clock 0) in
      let quiet =
        if-all (λ t. is_quiet db t ≡ true) (reuses_instant g) first (clock 0) (λ _. start)
          (λ _. h 0) in
      rw (choose-quiet g at db quiet)
        (run_stages-quiet gs first (λ n. clock (100 + n)) db start (λ n. h (100 + n)))

  -- A pass over tables without a row that is due at any reading of the clock completes, without a turn,
  -- without progress, and with the tables as they were.
  pub run_pending-quiet :
      (clock : ℕ → ℕ) (db : Db)
      → ((n : ℕ) → is_quiet db (clock n) ≡ true)
      → run_pending e decode crawl_created_at scope clock db
        ≡ some (record { tries = []; progress = false; db = db })
  unfolding run_pending
  run_pending-quiet clock db h = run_stages-quiet stages (clock 0) clock db (h 0) h
