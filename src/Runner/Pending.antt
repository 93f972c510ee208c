-- ===== src/Runner/Pending.antt =====
-- One pass of the loop of `run_pending_crawls` of archivebox/services/runner.py over the queues of
-- crawls and snapshots, up to the first turn that makes progress. Retention, schedules, binaries and
-- the upkeep of an idle loop, which the loop does around the pass, are left out.
pub mod Order
pub mod Idle
pub mod Quiet
pub mod Queries
pub mod First
use mathlib.Core.Option
use archive_box.Base.{
  ℕ, suc, ◌+◌, ◌*◌, Bool, true, false, ◌&&◌, ◌||◌, not, Option, none, some, List, [], ◌∷◌, ◌==◌,
  if◌then◌else◌, or_else, lte_option, is_none, ltb, leb, select,
}
use archive_box.Text.{Text}
use archive_box.Queue.Table.{Row, Status, queued, started, paused, sealed, find}
use archive_box.Queue.{has_status, is_in}
use archive_box.Db.{Crawl, Snapshot, Db, runnable_states, open_states}
use archive_box.Crawls.Urls.{Decoded}
use archive_box.Snapshots.{parent_status, ◌>>=◌}
use archive_box.Runner.{run_due_crawl}
use archive_box.Runner.Turn.{Calls, Turn, run_due_snapshot}

-- the queries of a pass, in the order in which they are tried
pub data Stage : Type 0 where
  submitted_snapshots : Stage
  submitted_crawls : Stage
  active_snapshots : Stage
  started_crawls : Stage
  cancelling_snapshots : Stage
  pausing_snapshots : Stage
  open_snapshots : Stage
  sealed_snapshots : Stage
  sealed_crawls : Stage

abbrev pub stages : List Stage
stages =
    submitted_snapshots ∷ submitted_crawls ∷ active_snapshots ∷ started_crawls
    ∷ cancelling_snapshots ∷ pausing_snapshots ∷ open_snapshots ∷ sealed_snapshots ∷ sealed_crawls
    ∷ []

-- `crawl__status__in`
abbrev pub parent_in : List Status → Snapshot → Db → Bool
parent_in states s db = elim (parent_status s db) [
  | none ↦ false
  | some status ↦ is_in status states
]

abbrev pub is_active : Snapshot → Db → Bool
is_active s db = parent_in runnable_states s db && is_in s.status runnable_states

abbrev pub is_new : Stage → Bool
is_new submitted_snapshots = true
is_new submitted_crawls = true
is_new _ = false

-- what a query asks of a snapshot, beside its instant and the crawl that the pass is for
abbrev pub wants_snapshot : Stage → Db → Snapshot → Bool
wants_snapshot submitted_snapshots db s = is_active s db && parent_in (queued ∷ []) s db
wants_snapshot active_snapshots db s = is_active s db
wants_snapshot cancelling_snapshots db s = parent_in (sealed ∷ []) s db && has_status started s
wants_snapshot pausing_snapshots db s =
    parent_in (paused ∷ []) s db && is_in s.status runnable_states
wants_snapshot open_snapshots db s = is_in s.status open_states
wants_snapshot sealed_snapshots db s = has_status sealed s
wants_snapshot _ db s = false

abbrev pub wants_crawl : Stage → Crawl → Bool
wants_crawl submitted_crawls c = has_status queued c
wants_crawl started_crawls c = has_status started c
wants_crawl sealed_crawls c = has_status sealed c
wants_crawl _ c = false

-- the crawl that the pass is for, if it is for one
abbrev pub in_scope : Option ℕ → ℕ → Bool
in_scope none k = true
in_scope (some c) k = c == k

abbrev pub due_snapshot : Stage → ℕ → Option ℕ → Db → Snapshot → Bool
due_snapshot g now scope db s =
    lte_option s.retry_at now && (wants_snapshot g db s && in_scope scope s.columns.crawl_id)

abbrev pub due_crawl : Stage → ℕ → Option ℕ → Crawl → Bool
due_crawl g now scope c = lte_option c.retry_at now && (wants_crawl g c && in_scope scope c.pk)

-- the first in an order, and of equals the first in the list
module _ {A : Type 0} (is_before : A → A → Bool) where
  better : A → Option A → Option A
  better x none = some x
  better x (some y) = if is_before x y then some x else some y

  unfoldable pub first_of : List A → Option A
  unfolding better
  first_of [] = none
  first_of (x ∷ xs) = better x (first_of xs)

-- `ORDER BY` the instant and then the creation, where every row has an instant; both descending for the
-- newest first
abbrev pub no_later : ℕ → ℕ → ℕ → ℕ → Bool
no_later at created at' created' = ltb at at' || at == at' && leb created created'

abbrev pub is_before : {E : Type 0} → (Row E → ℕ) → Bool → Row E → Row E → Bool
is_before created newest_first r q =
    if newest_first
    then no_later (or_else q.retry_at 0) (created q) (or_else r.retry_at 0) (created r)
    else no_later (or_else r.retry_at 0) (created r) (or_else q.retry_at 0) (created q)

unfoldable pub first_due_id : {E : Type 0} → (Row E → ℕ) → Bool → List (Row E) → Option ℕ
unfolding first_of
first_due_id created newest_first rows =
    Option.map (λ r. r.pk) (first_of (is_before created newest_first) rows)

pub data Work : Type 0 where
  snapshot_work : ℕ → Work
  crawl_work : ℕ → Work

-- a turn that the pass gave: the stage, the row, and the tables and the instant of the query
pub record Try : Type 0 where
  pub stage : Stage
  pub work : Work
  pub now : ℕ
  pub db : Db

pub record Pass : Type 0 where
  pub tries : List Try
  pub progress : Bool
  pub db : Db

abbrev pub created_at : Snapshot → ℕ
created_at s = s.columns.created_at

abbrev answer_of : Turn → Bool × Db
answer_of t = (t.answer, t.db)

abbrev pub of_crawls : Stage → Bool
of_crawls submitted_crawls = true
of_crawls started_crawls = true
of_crawls sealed_crawls = true
of_crawls _ = false

-- The query of the active snapshots has the instant of the first query of the pass.
abbrev pub reuses_instant : Stage → Bool
reuses_instant active_snapshots = true
reuses_instant _ = false

abbrev pub instant : Stage → ℕ → ℕ → ℕ
instant g first now = if reuses_instant g then first else now

abbrev pub noted : Try → Pass → Pass
noted t p = record p { tries = t ∷ p.tries }

abbrev pub stopped : Try → Db → Pass
stopped t db = record { tries = t ∷ []; progress = true; db = db }

module _ (e : Calls) (decode : Text → Decoded) (crawl_created_at : Crawl → ℕ)
    (scope : Option ℕ) where
  -- the work that a stage selects
  unfoldable pub choose : Stage → ℕ → Db → Option Work
  unfolding first_due_id select
  choose g now db =
      if of_crawls g
      then Option.map crawl_work
          (first_due_id crawl_created_at (is_new g) (select (due_crawl g now scope) db.crawls))
      else Option.map snapshot_work
          (first_due_id created_at (is_new g) (select (due_snapshot g now scope db) db.snapshots))

  -- a row that is gone when it is loaded counts as progress
  give_turn : Work → (ℕ → ℕ) → Db → Option (Bool × Db)
  unfolding run_due_snapshot run_due_crawl find
  give_turn (snapshot_work k) clock db =
      if is_none (find k db.snapshots)
      then some (true, db)
      else Option.map answer_of (run_due_snapshot e clock 60 k db)
  give_turn (crawl_work k) clock db = elim (find k db.crawls) [
    | none ↦ some (true, db)
    | some c ↦ run_due_crawl decode e.run_crawl clock 10 c db
  ]

  -- after a turn: the pass ends with progress, or goes on
  go_on : Try → Bool × Db → (Db → Option Pass) → Option Pass
  go_on t (true, db) rest = some (stopped t db)
  go_on t (false, db) rest = Option.map (noted t) (rest db)

  -- a stage with nothing to do is passed over
  visit : Stage → Option Work → ℕ → (ℕ → ℕ) → Db → (Db → Option Pass) → Option Pass
  unfolding give_turn go_on
  visit g none now clock db rest = rest db
  visit g (some w) now clock db rest = give_turn w (λ n. clock (suc n)) db >>= λ r.
      go_on (record { stage = g; work = w; now = now; db = db }) r rest

  -- a stage reads the clock fewer than a hundred times
  run_stages : List Stage → ℕ → (ℕ → ℕ) → Db → Option Pass
  unfolding visit choose
  run_stages [] first clock db = some (record { tries = []; progress = false; db = db })
  run_stages (g ∷ gs) first clock db =
      let now = instant g first (clock 0) in
      let rest = run_stages gs first (λ n. clock (100 + n)) in
      visit g (choose g now db) now clock db rest

  unfoldable pub run_pending : (ℕ → ℕ) → Db → Option Pass
  unfolding run_stages
  run_pending clock db = run_stages stages (clock 0) clock db
