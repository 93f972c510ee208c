-- ===== src/Runner/Turn/Single.antt =====
-- The work that a turn of archivebox/services/runner.py may run, and the parts of a turn that run the
-- plugins of one snapshot or of its crawl.
use archive_box.Base.{
  ℕ, ◌≡◌, refl, Bool, true, false, ◌&&◌, ◌||◌, not, Option, none, some, List, [], ◌∷◌,
  if◌then◌else◌, eq_option, lte_option, inl, inr, Bool-cases, Option-cases,
}
use archive_box.Text.{Text}
use archive_box.Text.Names.{stripped}
use archive_box.Queue.Table.{queued, started, paused, sealed, eq_status, find}
use archive_box.Queue.{crawl_class, is_in, is_paused}
use archive_box.Queue
use archive_box.Db.{Crawl, Snapshot, Db}
use archive_box.Snapshots.{Reconciled, Result, parent_is, ◌>>=◌}
use archive_box.Snapshots
use archive_box.Runner.Turn.{
  Calls, Run, of_snapshot, of_crawl, Turn, no_run, claim_sealed, claim, migrated, requested,
  retry_or_maintain, run_sealed, wait_for_process, start_crawl, start_snapshot, begin, run_own,
}
use archive_box.Runner.Turn.Due.{claim_for_worker-due, claim_processing_lock-due}

-- at one of the readings of the clock
abbrev pub IsDue : (ℕ → ℕ) → Option ℕ → Type 0
IsDue clock at = (n : ℕ) × (lte_option at (clock n) ≡ true)

-- A snapshot that may run: not paused, and sealed itself or in a crawl that is neither sealed nor
-- paused.
abbrev pub may_run : Snapshot → Db → Bool
may_run s db =
    not (eq_status s.status paused)
    && (eq_status s.status sealed || not (parent_is sealed s db) && not (parent_is paused s db))

-- what holds of the work whose plugins a turn runs
abbrev pub IsAdmitted : (ℕ → ℕ) → Snapshot → Db → Option Run → Type 0
IsAdmitted clock s db none = Unit
IsAdmitted clock s db (some (of_snapshot names)) = IsDue clock s.retry_at × (may_run s db ≡ true)
IsAdmitted clock s db (some (of_crawl k)) =
    (c : Crawl) × (find s.columns.crawl_id db.crawls ≡ some c)
    × (k ≡ c.pk)
    × IsDue clock c.retry_at
    × (eq_status c.status sealed ≡ false)
    × (may_run s db ≡ true)

-- of a turn that may be an exception
abbrev pub Ensures : (ℕ → ℕ) → Snapshot → Db → Option Turn → Type 0
Ensures clock s db none = Unit
Ensures clock s db (some t) = IsAdmitted clock s db t.run

module _ (clock : ℕ → ℕ) (s : Snapshot) (db : Db) where
  pub Ensures-if :
      (b : Bool) (x y : Option Turn)
      → (b ≡ true → Ensures clock s db x)
      → (b ≡ false → Ensures clock s db y)
      → Ensures clock s db (if b then x else y)
  Ensures-if true x y h g = h refl
  Ensures-if false x y h g = g refl

module _ (e : Calls) (clock : ℕ → ℕ) (lock_seconds : ℕ) (s : Snapshot) (db : Db)
    (may : may_run s db ≡ true) where
  requested-ok :
      (fresh : Snapshot) (t : Db) (names : List Text)
      → IsDue clock s.retry_at
      → IsAdmitted clock s db (requested e clock lock_seconds fresh t names).run
  unfolding requested
  requested-ok fresh t [] due = tt
  requested-ok fresh t (n ∷ ns) due = (due, may)

  pub run_sealed-ok : Ensures clock s db (run_sealed e clock lock_seconds s db)
  unfolding run_sealed retry_or_maintain
  run_sealed-ok = elim (Bool-cases (claim_sealed e clock lock_seconds s db).done) [
    | inr lost ↦ rw lost tt
    | inl won ↦ rw won (
        let c = claim_sealed e clock lock_seconds s db in
        elim (Option-cases (find s.pk c.db.snapshots)) [
          | inl gone ↦ rw gone tt
          | inr (owned, here) ↦ rw here (
              let t = migrated e clock lock_seconds owned c.db in
              elim (Option-cases (find s.pk t.snapshots)) [
                | inl gone ↦ rw gone tt
                | inr (fresh, there) ↦ rw there (
                    Ensures-if clock s db
                      (not (eq_status fresh.status sealed)
                        || not (eq_option fresh.retry_at owned.retry_at))
                      (some (no_run true t))
                      (some (
                        requested e clock lock_seconds fresh t
                          (stripped fresh.columns.retry_plugins)))
                      (λ _. tt)
                      (λ _.
                        requested-ok fresh t (stripped fresh.columns.retry_plugins)
                          (0, claim_for_worker-due (clock 0) lock_seconds s db.snapshots won)))
              ])
        ])
  ]

  start_snapshot-ok :
      (fresh : Snapshot) (t : Db)
      → IsDue clock s.retry_at
      → IsAdmitted clock s db (start_snapshot e clock lock_seconds fresh t).run
  unfolding start_snapshot
  start_snapshot-ok fresh t due = elim (Bool-cases (eq_status fresh.status started)) [
    | inl runs ↦ rw runs (due, may)
    | inr other ↦ rw other tt
  ]

  begin-ok :
      (fresh : Snapshot) (t : Db)
      → IsDue clock s.retry_at
      → Ensures clock s db (begin e clock lock_seconds fresh t)
  unfolding begin
  begin-ok fresh t due = elim (Bool-cases (eq_status fresh.status queued)) [
    | inl waits ↦ rw waits (elim (Option-cases (Snapshots.start_processing (clock 1) fresh t)) [
      | inl gone ↦ rw gone tt
      | inr (r, here) ↦ rw here (start_snapshot-ok r.snapshot r.db due)
    ])
    | inr other ↦ rw other (start_snapshot-ok fresh t due)
  ]

  pub run_own-ok : (crawl : Crawl) → Ensures clock s db (run_own e clock lock_seconds crawl s db)
  unfolding run_own wait_for_process
  run_own-ok crawl = elim (Bool-cases (claim e clock lock_seconds (clock 0) s db).done) [
    | inr lost ↦ rw lost tt
    | inl won ↦ rw won (
        let c = claim e clock lock_seconds (clock 0) s db in
        let due : IsDue clock s.retry_at =
          (0, (claim_processing_lock-due (clock 0) lock_seconds s db.snapshots won).0) in
        elim (Option-cases (find s.pk c.db.snapshots)) [
          | inl gone ↦ rw gone tt
          | inr (owned, here) ↦ rw here (elim (Bool-cases (e.has_running_process s.pk)) [
            | inl runs ↦ rw runs tt
            | inr quiet ↦ rw quiet (
                let t = migrated e clock lock_seconds owned c.db in
                elim (Option-cases (find s.pk t.snapshots)) [
                  | inl gone ↦ rw gone tt
                  | inr (fresh, there) ↦ rw there (begin-ok fresh t due)
                ])
          ])
        ])
  ]

  pub start_crawl-ok :
      (crawl : Crawl) (t : Db)
      → find s.columns.crawl_id db.crawls ≡ some crawl
      → IsAdmitted clock s db (start_crawl e clock lock_seconds crawl t).run
  unfolding start_crawl
  start_crawl-ok crawl t here =
      let o = Queue.claim_processing_lock crawl_class (clock 3) lock_seconds crawl t.crawls in
      elim (Bool-cases o.done) [
        | inr lost ↦ rw lost tt
        | inl won ↦ rw won (
            let due = claim_processing_lock-due (clock 3) lock_seconds crawl t.crawls won in
            (crawl, here, refl, (3, due.0), due.1, may))
      ]
