-- ===== src/Runner/Pending/Queries.antt =====
-- The queries of `run_pending_crawls` of archivebox/services/runner.py as a table, apart from the code
-- that makes them.
use archive_box.Base.{
  ℕ, ◌≡◌, refl, ap, ◌∙◌, Bool, true, false, ◌&&◌, ◌||◌, not, Option, none, some, List, [], ◌∷◌,
  arith, ◌==◌, if◌then◌else◌, ltb, leb, or_else, lte_option, inl, inr, Option-cases,
}
use archive_box.Queue.Table.{Row, Status, queued, started, paused, sealed, find}
use archive_box.Queue.{is_in}
use archive_box.Db.{Crawl, Snapshot, Db, runnable_states}
use archive_box.Snapshots.{parent_status}
use archive_box.Runner.Pending.{
  Stage, submitted_snapshots, submitted_crawls, active_snapshots, started_crawls,
  cancelling_snapshots, pausing_snapshots, open_snapshots, sealed_snapshots, sealed_crawls,
  due_snapshot, due_crawl, in_scope, parent_in, is_new, is_before, wants_snapshot, wants_crawl,
}

-- A query: its place, whether it is of crawls, whether it takes the newest first, the statuses that it
-- wants, and those of the crawl of a snapshot, if it asks for them.
pub record Query : Type 0 where
  pub place : ℕ
  pub of_crawls : Bool
  pub newest_first : Bool
  pub statuses : List Status
  pub crawl_statuses : Option (List Status)

abbrev snapshots : ℕ → List Status → Option (List Status) → Query
snapshots place statuses crawl_statuses = record {
  place = place;
  of_crawls = false;
  newest_first = place == 0;
  statuses = statuses;
  crawl_statuses = crawl_statuses;
}

abbrev crawls : ℕ → Status → Query
crawls place status = record {
  place = place;
  of_crawls = true;
  newest_first = place == 1;
  statuses = status ∷ [];
  crawl_statuses = none;
}

-- New submissions come first, and the newest of them: the runnable snapshots of queued crawls, and queued
-- crawls. Then come the runnable snapshots of runnable crawls, started crawls, what is to be sealed or
-- paused with its crawl, every open snapshot, and the upkeep of what is sealed.
abbrev pub query : Stage → Query
query submitted_snapshots = snapshots 0 (queued ∷ started ∷ []) (some (queued ∷ []))
query submitted_crawls = crawls 1 queued
query active_snapshots = snapshots 2 (queued ∷ started ∷ []) (some (queued ∷ started ∷ []))
query started_crawls = crawls 3 started
query cancelling_snapshots = snapshots 4 (started ∷ []) (some (sealed ∷ []))
query pausing_snapshots = snapshots 5 (queued ∷ started ∷ []) (some (paused ∷ []))
query open_snapshots = snapshots 6 (queued ∷ started ∷ paused ∷ []) none
query sealed_snapshots = snapshots 7 (sealed ∷ []) none
query sealed_crawls = crawls 8 sealed

abbrev pub is_due : ℕ → Option ℕ → Bool
is_due now none = false
is_due now (some at) = leb at now

abbrev pub is_of : Option ℕ → ℕ → Bool
is_of none k = true
is_of (some crawl_id) k = k == crawl_id

abbrev pub crawl_has : Option (List Status) → ℕ → Db → Bool
crawl_has none k db = true
crawl_has (some statuses) k db = elim (find k db.crawls) [
  | none ↦ false
  | some c ↦ is_in c.status statuses
]

abbrev pub wanted_snapshot : Query → ℕ → Option ℕ → Db → Snapshot → Bool
wanted_snapshot q now scope db s =
    not q.of_crawls
    && is_due now s.retry_at
    && is_in s.status q.statuses
    && crawl_has q.crawl_statuses s.columns.crawl_id db
    && is_of scope s.columns.crawl_id

abbrev pub wanted_crawl : Query → ℕ → Option ℕ → Crawl → Bool
wanted_crawl q now scope c =
    q.of_crawls && is_due now c.retry_at && is_in c.status q.statuses && is_of scope c.pk

-- the order of two rows by instant, and by creation at one instant
abbrev pub goes_first : {E : Type 0} → (Row E → ℕ) → Bool → Row E → Row E → Bool
goes_first created newest_first r q =
    let a = or_else r.retry_at 0 in
    let b = or_else q.retry_at 0 in
    if newest_first
    then ltb b a || a == b && leb (created q) (created r)
    else ltb a b || a == b && leb (created r) (created q)

due-is_due : (at : Option ℕ) (now : ℕ) → lte_option at now ≡ is_due now at
due-is_due none now = refl
due-is_due (some at) now = refl

scope-is_of : (scope : Option ℕ) (k : ℕ) → in_scope scope k ≡ is_of scope k
scope-is_of none k = refl
scope-is_of (some c) k = ground arith

parent-crawl_has :
    (statuses : List Status) (s : Snapshot) (db : Db)
    → parent_in statuses s db ≡ crawl_has (some statuses) s.columns.crawl_id db
parent-crawl_has statuses s db = elim (Option-cases (find s.columns.crawl_id db.crawls)) [
  | inl gone ↦ rw (parent_in, parent_status, crawl_has, gone) refl
  | inr (c, here) ↦ rw (parent_in, parent_status, crawl_has, here) refl
]

-- a crawl with a status of the first list has one of the second
both_have :
    (s : Snapshot) (db : Db)
    → (crawl_has (some (queued ∷ started ∷ [])) s.columns.crawl_id db
        && crawl_has (some (queued ∷ [])) s.columns.crawl_id db)
      ≡ crawl_has (some (queued ∷ [])) s.columns.crawl_id db
both_have s db = elim (Option-cases (find s.columns.crawl_id db.crawls)) [
  | inl gone ↦ rw (◌&&◌, crawl_has, gone) refl
  | inr (c, here) ↦ rw (◌&&◌, crawl_has, here) (ground arith)
]

pub due_crawl-wanted :
    (g : Stage) (now : ℕ) (scope : Option ℕ) (c : Crawl)
    → due_crawl g now scope c ≡ wanted_crawl (query g) now scope c
due_crawl-wanted g now scope c = rw (due-is_due c.retry_at now, scope-is_of scope c.pk) (go g)
  where
    go :
        (h : Stage)
        → (is_due now c.retry_at && (wants_crawl h c && is_of scope c.pk))
          ≡ wanted_crawl (query h) now scope c
    go submitted_crawls = ground arith
    go started_crawls = ground arith
    go sealed_crawls = ground arith
    go submitted_snapshots = ground arith
    go active_snapshots = ground arith
    go cancelling_snapshots = ground arith
    go pausing_snapshots = ground arith
    go open_snapshots = ground arith
    go sealed_snapshots = ground arith

pub due_snapshot-wanted :
    (g : Stage) (now : ℕ) (scope : Option ℕ) (db : Db) (s : Snapshot)
    → due_snapshot g now scope db s ≡ wanted_snapshot (query g) now scope db s
due_snapshot-wanted g now scope db s =
    rw (due-is_due s.retry_at now, scope-is_of scope s.columns.crawl_id) (go g)
  where
    k : ℕ
    k = s.columns.crawl_id

    go :
        (h : Stage)
        → (is_due now s.retry_at && (wants_snapshot h db s && is_of scope k))
          ≡ wanted_snapshot (query h) now scope db s
    go submitted_crawls = ground arith
    go started_crawls = ground arith
    go sealed_crawls = ground arith
    go submitted_snapshots = ground (
      arith,
      parent-crawl_has runnable_states s db,
      parent-crawl_has (queued ∷ []) s db,
      both_have s db,
    )
    go active_snapshots = ground (arith, parent-crawl_has runnable_states s db)
    go cancelling_snapshots = ground (arith, parent-crawl_has (sealed ∷ []) s db)
    go pausing_snapshots = ground (arith, parent-crawl_has (paused ∷ []) s db)
    go open_snapshots = ground arith
    go sealed_snapshots = ground arith

new-query : (g : Stage) → is_new g ≡ (query g).newest_first
new-query submitted_snapshots = refl
new-query submitted_crawls = refl
new-query active_snapshots = refl
new-query started_crawls = refl
new-query cancelling_snapshots = refl
new-query pausing_snapshots = refl
new-query open_snapshots = refl
new-query sealed_snapshots = refl
new-query sealed_crawls = refl

pub before-goes_first :
    {E : Type 0} (created : Row E → ℕ) (g : Stage) (r q : Row E)
    → is_before created (is_new g) r q ≡ goes_first created (query g).newest_first r q
before-goes_first created g r q = go (is_new g) ∙ ap (λ b. goes_first created b r q) (new-query g)
  where
    go : (b : Bool) → is_before created b r q ≡ goes_first created b r q
    go true = ground arith
    go false = refl
