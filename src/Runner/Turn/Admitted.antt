-- ===== src/Runner/Turn/Admitted.antt =====
-- A turn of `_run_due_snapshot_locked` of archivebox/services/runner.py runs plugins only for work that
-- is due and that nothing holds back.
use archive_box.Base.{
  ℕ, ◌+◌, ◌≡◌, ◌⊎◌, refl, ap, ◌∙◌, Bool, true, false, ◌&&◌, Option, none, some, arith,
  if◌then◌else◌, inl, inr, Bool-cases, Option-cases,
}
use archive_box.Queue.Table.{sealed, eq_status, find}
use archive_box.Queue.{crawl_class, is_paused}
use archive_box.Db.{Crawl, Snapshot, Db}
use archive_box.Snapshots.{Reconciled, Result, parent_is, ◌>>=◌}
use archive_box.Snapshots
use archive_box.Runner.Maintenance.{run_snapshot_maintenance}
use archive_box.Snapshots.Following.{is_left, Follows, reconcile-Follows}
use archive_box.Runner.Turn.{
  Calls, Run, of_snapshot, of_crawl, Turn, no_run, claim, run_sealed, wait_for_process, prepare,
  after_prepare, run_isolated, run_own, run_active, dispatch, follow, turn_of, run_due_snapshot,
  maintained,
}
use archive_box.Runner.Turn.Single.{
  IsDue, may_run, IsAdmitted, Ensures, Ensures-if, run_sealed-ok, run_own-ok, start_crawl-ok,
}

-- The migration before a run of the crawl leaves the crawls.
abbrev pub KeepsCrawls : Db → Option (Bool × Db) → Type 0
KeepsCrawls db none = Unit
KeepsCrawls db (some (b, t)) = t.crawls ≡ db.crawls

module _ (e : Calls) (clock : ℕ → ℕ) (lock_seconds : ℕ) (s : Snapshot) (db : Db)
    (keep : (k : ℕ) (t : Db) → (e.migrate k t).crawls ≡ t.crawls) where
  prepare-KeepsCrawls : KeepsCrawls db (prepare e clock lock_seconds s db)
  unfolding prepare
  prepare-KeepsCrawls = elim (Bool-cases (e.fs_migration_needed s)) [
    | inr current ↦ rw current refl
    | inl stale ↦ rw stale (
        let c = claim e clock lock_seconds (clock 0) s db in
        elim (Bool-cases c.done) [
          | inr lost ↦ rw lost refl
          | inl won ↦ rw won (elim (Option-cases (find s.pk c.db.snapshots)) [
            | inl gone ↦ rw gone tt
            | inr (claimed, here) ↦ rw here (elim (Bool-cases (e.fs_migration_needed claimed)) [
              | inl needed ↦ rw needed (keep claimed.pk c.db)
              | inr moved ↦ rw moved refl
            ])
          ])
        ])
  ]

  run_isolated-ok :
      (crawl : Crawl)
      → may_run s db ≡ true
      → find s.columns.crawl_id db.crawls ≡ some crawl
      → Ensures clock s db (run_isolated e clock lock_seconds crawl s db)
  unfolding run_isolated wait_for_process after_prepare
  run_isolated-ok crawl may here = elim (Bool-cases (e.has_running_process s.pk)) [
    | inl runs ↦ rw runs tt
    | inr quiet ↦ rw quiet (go (prepare e clock lock_seconds s db) prepare-KeepsCrawls)
  ]
    where
      go :
          (o : Option (Bool × Db))
          → KeepsCrawls db o
          → Ensures clock s db (o >>= after_prepare e clock lock_seconds s)
      go none k = tt
      go (some (false, t)) k = tt
      go (some (true, t)) k =
          rw (ap (find s.columns.crawl_id) k ∙ here)
            (start_crawl-ok e clock lock_seconds s db may crawl t here)

  run_active-ok : may_run s db ≡ true → Ensures clock s db (run_active e clock lock_seconds s db)
  unfolding run_active
  run_active-ok may = elim (Option-cases (find s.columns.crawl_id db.crawls)) [
    | inl gone ↦ rw gone tt
    | inr (crawl, here) ↦ rw here (
        Ensures-if clock s db (e.crawl_isolation s db)
          (run_isolated e clock lock_seconds crawl s db) (run_own e clock lock_seconds crawl s db)
          (λ _. run_isolated-ok crawl may here)
          (λ _. run_own-ok e clock lock_seconds s db may crawl))
  ]

  dispatch-ok : is_left s db ≡ true → Ensures clock s db (dispatch e clock lock_seconds s db)
  unfolding dispatch
  dispatch-ok left =
      let sealed_here = eq_status s.status sealed in
      Ensures-if clock s db (is_paused crawl_class s)
        (some (no_run true (Snapshots.restore_paused_scheduler_marker (clock 0) s db).1))
        (if sealed_here
          then run_sealed e clock lock_seconds s db
          else run_active e clock lock_seconds s db)
        (λ _. tt)
        λ awake.
          (let may : may_run s db ≡ true = ground arith in
            Ensures-if clock s db sealed_here (run_sealed e clock lock_seconds s db)
              (run_active e clock lock_seconds s db)
              (λ _. run_sealed-ok e clock lock_seconds s db may) (λ _. run_active-ok may))

  follow-ok :
      (k : ℕ) (answer : Option Bool) (t : Snapshot) (d : Db)
      → ((b : Bool) × (answer ≡ some b))
        ⊎ ((answer ≡ none) × (t ≡ s) × (d ≡ db) × (is_left s db ≡ true))
      → Ensures clock s db (follow e clock lock_seconds k answer t d)
  unfolding follow
  follow-ok k none t d (inl (b, h)) = cc
  follow-ok k none t d (inr (h, same, same_db, left)) = rw (same, same_db) (dispatch-ok left)
  follow-ok k (some false) t d h = tt
  follow-ok k (some true) t d h = elim (Option-cases (find k d.snapshots)) [
    | inl gone ↦ rw gone tt
    | inr (u, there) ↦ rw there (
        Ensures-if clock s db (eq_status u.status sealed && e.fs_migration_needed u)
          (some (maintained (run_snapshot_maintenance clock k d))) (some (no_run true d)) (λ _. tt)
          (λ _. tt))
  ]

Ensures-later :
    (clock : ℕ → ℕ) (s : Snapshot) (db : Db) (o : Option Turn)
    → Ensures (λ n. clock (10 + n)) s db o
    → Ensures clock s db o
Ensures-later clock s db none h = tt
Ensures-later clock s db (some t) h = go t.run h
  where
    due : (at : Option ℕ) → IsDue (λ n. clock (10 + n)) at → IsDue clock at
    due at (n, p) = (10 + n, p)

    go : (r : Option Run) → IsAdmitted (λ n. clock (10 + n)) s db r → IsAdmitted clock s db r
    go none h = tt
    go (some (of_snapshot names)) (at, may) = (due s.retry_at at, may)
    go (some (of_crawl k)) (c, here, same, at, open_, may) =
        (c, here, same, due c.retry_at at, open_, may)

-- A turn for a snapshot of the tables runs plugins only if the snapshot is not paused, and is sealed
-- itself or in a crawl that is neither sealed nor paused: the plugins of the snapshot if it is due at
-- some reading of the clock, and those of its crawl if the crawl is due at one and not sealed. The
-- migration of files is taken to leave the rows of the crawls.
pub run_due_snapshot-IsAdmitted :
    (e : Calls) (clock : ℕ → ℕ) (lock_seconds : ℕ) (k : ℕ) (s : Snapshot) (db : Db)
    → ((j : ℕ) (t : Db) → (e.migrate j t).crawls ≡ t.crawls)
    → find k db.snapshots ≡ some s
    → Ensures clock s db (run_due_snapshot e clock lock_seconds k db)
unfolding run_due_snapshot turn_of
run_due_snapshot-IsAdmitted e clock lock_seconds k s db keep here = rw here (
    Ensures-later clock s db _ (
      go (Snapshots.reconcile_parent_lifecycle e.finalize clock lock_seconds s db)
        (reconcile-Follows e.finalize clock lock_seconds s db)))
  where
    later : ℕ → ℕ
    later n = clock (10 + n)

    go :
        (o : Option Reconciled)
        → Follows s db o
        → Ensures later s db (o >>= λ r. follow e later lock_seconds k r.answer r.snapshot r.db)
    go none f = tt
    go (some r) f = follow-ok e later lock_seconds s db keep k r.answer r.snapshot r.db f
