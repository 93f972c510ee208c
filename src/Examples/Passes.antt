-- ===== src/Examples/Passes.antt =====
-- Passes of the scheduler over the queues of crawls and snapshots.
use archive_box.Base.{
  ℕ, ◌≡◌, ◌&&◌, refl, true, false, none, some, [], ◌∷◌, arith, any, All, lte_option,
}
use archive_box.Text.{Text}
use archive_box.Queue.Table.{queued, started, sealed}
use archive_box.Queue.{is_in}
use archive_box.Db.{Db, Crawl, open_states}
use archive_box.Crawls.Urls.{Decoded, other}
use archive_box.Runner.Turn.{Calls}
use archive_box.Runner.{run_due_crawl}
use archive_box.Runner.Pending.{Pass, run_pending, in_scope, sealed_crawls, crawl_work}
use archive_box.Runner.Pending.Idle.{run_pending-idle}
use archive_box.Runner.Pending.Quiet.{is_quiet, run_pending-quiet}
use archive_box.Runner.Pending.First.{IsChosen, InOrder, run_pending-IsChosen}
use archive_box.Examples.Data.{clock, crawl, snapshot}

abbrev decode : Text → Decoded
decode line = other

abbrev created : Crawl → ℕ
created c = 500

abbrev calls : Calls
calls = record {
  finalize = λ s t. t;
  fs_migration_needed = λ s. false;
  migrate = λ k t. t;
  has_running_process = λ k. false;
  crawl_isolation = λ s t. false;
  run_snapshot = λ k names t. t;
  run_crawl = λ k t. t;
}

-- a crawl and a snapshot that wait
abbrev waiting : Db
waiting = record {
  crawls = record crawl { retry_at = some 5000 } ∷ [];
  snapshots = record (snapshot 7 queued) { retry_at = some 6000 } ∷ [];
}

abbrev at_1000 : ℕ → ℕ
at_1000 n = 1000

waiting-quiet : (n : ℕ) → is_quiet waiting (at_1000 n) ≡ true
unfolding any
waiting-quiet n = refl

abbrev no_turn : Pass
no_turn = record { tries = []; progress = false; db = waiting }

run_pending-quiet_example : run_pending calls decode created none at_1000 waiting ≡ some no_turn
run_pending-quiet_example =
    run_pending-quiet calls decode created none at_1000 waiting waiting-quiet

nothing_tried : run_pending calls decode created none at_1000 waiting ≡ some no_turn
nothing_tried = run_pending-quiet calls decode created none at_1000 waiting waiting-quiet

run_pending-idle_example :
    (waiting ≡ waiting)
    × (false ≡ false)
    × All
        (λ s.
          (lte_option s.retry_at 1000
            && (is_in s.status (sealed ∷ open_states) && in_scope none s.columns.crawl_id))
          ≡ false)
        waiting.snapshots
    × All
        (λ c.
          (lte_option c.retry_at 1000
            && (is_in c.status (queued ∷ started ∷ sealed ∷ []) && in_scope none c.pk))
          ≡ false)
        waiting.crawls
run_pending-idle_example =
    run_pending-idle calls decode created none at_1000 waiting no_turn (λ n. omega arith)
      nothing_tried refl

-- two sealed crawls that are due
abbrev closed : Db
closed = record {
  crawls =
      record crawl { pk = 2; status = sealed; retry_at = some 950 }
      ∷ record crawl { status = sealed }
      ∷ [];
  snapshots = [];
}

abbrev cleaned : Db
cleaned = record {
  crawls =
      record crawl { pk = 2; status = sealed; retry_at = some 950 }
      ∷ record crawl { status = sealed; retry_at = none; modified_at = 1802 }
      ∷ [];
  snapshots = [];
}

abbrev given : Pass
given = record {
  tries = record { stage = sealed_crawls; work = crawl_work 1; now = 1800; db = closed } ∷ [];
  progress = true;
  db = cleaned;
}

turn_given : run_pending calls decode created none clock closed ≡ some given
unfolding run_pending run_due_crawl
turn_given = refl

run_pending-IsChosen_example : All (IsChosen created none) given.tries × InOrder 0 given.tries
run_pending-IsChosen_example =
    run_pending-IsChosen calls decode created none clock closed given turn_given
