-- ===== src/Snapshots/Sealing.antt =====
-- A due snapshot of a sealed crawl is sealed by `reconcile_parent_lifecycle` of
-- archivebox/core/models.py, and only one runner starts a queued snapshot.
use mathlib.Core.Option
use archive_box.Base.{
  ℕ, ◌+◌, ◌≡◌, refl, Bool, true, false, ◌&&◌, ◌==◌, Option, none, some, List, [], ◌∷◌, arith,
  eq_option, eq_option_iff, lte_option,
}
use archive_box.Queue.Table.{
  find, eq_status, Status, queued, started, sealed, IsKeyed, KeepsKey, update_where, change_if,
  status_at, count_where-key, update_where-IsKeyed,
}
use archive_box.Queue.Table.Keyed.{find-update_where_self}
use archive_box.Queue.{crawl_class, seconds, is_in, lease, active_state_lease_seconds}
use archive_box.Queue
use archive_box.Queue.Claims.{claimable, claim-done, claim-rows, claim-IsKeyed}
use archive_box.Db.{Crawl, Snapshot, Db, open_states}
use archive_box.Snapshots
use archive_box.Snapshots.{
  Result, Reconciled, transition, move, of_outcome, follow_sealed, parent_is, followed,
}
use archive_box.Snapshots.Kept.{FinalizeKeeps}

-- what a guarded transition asks of the row
abbrev admits : List Status → Snapshot → Snapshot → Bool
admits states self s = eq_option s.retry_at self.retry_at && is_in s.status states

move-KeepsKey : (status : Status) (at : Option ℕ) (now : ℕ) → KeepsKey (move status at now)
move-KeepsKey status at now s = refl

-- A guarded transition of the row `s`, written out.
module _ (now : ℕ) (states : List Status) (status : Status) (at : Option ℕ) (self s : Snapshot)
    (t : Db) (keyed : IsKeyed t.snapshots) (found : find self.pk t.snapshots ≡ some s) where
  after : Db
  after = record t {
    snapshots =
        update_where (λ (x : Snapshot). x.pk == self.pk && admits states self x)
          (move status at now) t.snapshots;
  }

  find-after :
      find self.pk after.snapshots ≡ some (change_if (admits states self) (move status at now) s)
  unfolding after
  find-after =
      find-update_where_self self.pk (admits states self) (move status at now) t.snapshots s
        (move-KeepsKey status at now) found

  after-IsKeyed : IsKeyed after.snapshots
  unfolding after
  after-IsKeyed = update_where-IsKeyed _ _ t.snapshots (move-KeepsKey status at now) keyed

  transition_lem :
      transition now states status at self t
      ≡ some (record {
        done = admits states self s;
        snapshot = change_if (admits states self) (move status at now) s;
        db = after;
      })
  unfolding transition after
  transition_lem =
      rw (count_where-key self.pk (admits states self) t.snapshots keyed)
        (rw found (rw written (ground arith)))
    where
      written :
          find self.pk (
            update_where
              (λ (x : Snapshot). x.pk == self.pk && admits states self x)
              (move status at now)
              t.snapshots)
          ≡ some (change_if (admits states self) (move status at now) s)
      written =
          find-update_where_self self.pk (admits states self) (move status at now) t.snapshots s
            (move-KeepsKey status at now) found

-- `True` of a result that is no exception, and its tables
abbrev pub succeeded : Option Result → Bool
succeeded none = false
succeeded (some r) = r.done

abbrev pub tables_of : Db → Option Result → Db
tables_of t none = t
tables_of t (some r) = r.db

-- Two runners call `start_processing` one after the other on the same object, whose lease is that of
-- a queued row in a table with unique keys: the first starts the snapshot, and the second is refused.
pub start_processing_once :
    (now later : ℕ) (self s : Snapshot) (t : Db)
    → IsKeyed t.snapshots
    → find self.pk t.snapshots ≡ some s
    → s.status ≡ queued
    → s.retry_at ≡ self.retry_at
    → let first = Snapshots.start_processing now self t in
      (succeeded first ≡ true)
      × (status_at self.pk (tables_of t first).snapshots ≡ some started)
      × (succeeded (Snapshots.start_processing later self (tables_of t first)) ≡ false)
unfolding Snapshots.start_processing
start_processing_once now later self s t keyed found is_queued same =
    let at = some (now + seconds active_state_lease_seconds) in
    let at' = some (later + seconds active_state_lease_seconds) in
    let states = queued ∷ [] in
    let u = after now states started at self s t keyed found in
    let hit : admits states self s ≡ true =
      ground (arith, is_queued, same, eq_option_iff s.retry_at self.retry_at) in
    let kept : find self.pk u.snapshots ≡ some (move started at now s) =
      ground (arith, hit, find-after now states started at self s t keyed found) in
    let ku = after-IsKeyed now states started at self s t keyed found in
    rw (transition_lem now states started at self s t keyed found) (
      hit,
      rw kept,
      rw (transition_lem later states started at' self (move started at now s) u ku kept)
          (ground arith),
    )

-- the row that `start_processing` writes
abbrev pub started_row : ℕ → Snapshot → Snapshot
started_row now = move started (some (now + seconds active_state_lease_seconds)) now

pub start_processing-started :
    (now : ℕ) (s : Snapshot) (t : Db)
    → IsKeyed t.snapshots
    → find s.pk t.snapshots ≡ some s
    → s.status ≡ queued
    → (d : Db) × (Snapshots.start_processing now s t
        ≡ some (record { done = true; snapshot = started_row now s; db = d }))
      × (find s.pk d.snapshots ≡ some (started_row now s))
unfolding Snapshots.start_processing
start_processing-started now s t keyed found waits =
    let at = some (now + seconds active_state_lease_seconds) in
    let states = queued ∷ [] in
    let hit : admits states s s ≡ true =
      ground (arith, waits, eq_option_iff s.retry_at s.retry_at) in
    (
      after now states started at s s t keyed found,
      rw (transition_lem now states started at s s t keyed found) (rw hit refl),
      ground (arith, hit, find-after now states started at s s t keyed found),
    )

pub claim_lock-eq :
    (now lock_seconds : ℕ) (s : Snapshot) (t : List Snapshot)
    → is_in s.status open_states ≡ true
    → lte_option s.retry_at now ≡ true
    → Queue.claim_processing_lock crawl_class now lock_seconds s t
      ≡ Queue.claim_for_worker now lock_seconds s t
unfolding Queue.claim_processing_lock
claim_lock-eq now lock_seconds s t is_open due = ground arith

pk-claim :
    (now lock_seconds : ℕ) (s : Snapshot) (t : List Snapshot)
    → (Queue.claim_for_worker now lock_seconds s t).self.pk ≡ s.pk
unfolding Queue.claim_for_worker
pk-claim now lock_seconds s t = ground arith

-- `seal` of an open snapshot that is as the table has it
module _ (finalize : Snapshot → Db → Db) (keeps : FinalizeKeeps finalize) where
  seal_lem :
      (now : ℕ) (s : Snapshot) (t : Db)
      → IsKeyed t.snapshots
      → find s.pk t.snapshots ≡ some s
      → is_in s.status open_states ≡ true
      → (r : Result) × (Snapshots.seal finalize now s t ≡ some r)
        × (status_at s.pk r.db.snapshots ≡ some sealed)
  unfolding Snapshots.seal
  seal_lem now s t keyed found is_open =
      let u = after now open_states sealed none s s t keyed found in
      let row = move sealed none now s in
      let hit : admits open_states s s ≡ true =
        ground (arith, is_open, eq_option_iff s.retry_at s.retry_at) in
      let kept : find s.pk u.snapshots ≡ some row =
        ground (arith, hit, find-after now open_states sealed none s s t keyed found) in
      let open_row : eq_status s.status sealed ≡ false = ground (arith, is_open) in
      (
        record { done = true; snapshot = row; db = finalize row u },
        rw (transition_lem now open_states sealed none s s t keyed found)
            (rw hit (rw open_row refl)),
        (keeps row u).snapshots.at_key s.pk (rw kept refl),
      )

  follow_lem :
      (now : ℕ) (self s : Snapshot) (t : Db)
      → find self.pk t.snapshots ≡ some s
      → parent_is sealed s t ≡ true
      → eq_status s.status sealed ≡ false
      → follow_sealed finalize now self t ≡ Option.map followed (Snapshots.seal finalize now s t)
  unfolding follow_sealed
  follow_lem now self s t found parent is_open = rw found (rw (parent, is_open))

  -- A snapshot that is queued, started or paused, and due, and whose crawl is sealed, is sealed when
  -- the runner reconciles it on an object that is up to date, in a table with unique keys: the call
  -- answers `True`, as long as `finalize_output_metadata` keeps what is sealed.
  pub reconcile-seals :
      (clock : ℕ → ℕ) (lock_seconds : ℕ) (s : Snapshot) (c : Crawl) (t : Db)
      → IsKeyed t.snapshots
      → find s.pk t.snapshots ≡ some s
      → find s.columns.crawl_id t.crawls ≡ some c
      → c.status ≡ sealed
      → is_in s.status open_states ≡ true
      → lte_option s.retry_at (clock 0) ≡ true
      → (r : Reconciled) × (Snapshots.reconcile_parent_lifecycle finalize clock lock_seconds s t
          ≡ some r)
        × (r.answer ≡ some true)
        × (status_at s.pk r.db.snapshots ≡ some sealed)
  unfolding Snapshots.reconcile_parent_lifecycle
  reconcile-seals clock lock_seconds s c t keyed found parent parent_sealed is_open due =
      let until = clock 0 + seconds lock_seconds in
      let leased = lease (clock 0) until s in
      let o = Queue.claim_for_worker (clock 0) lock_seconds s t.snapshots in
      let u : Db = record t { snapshots = o.rows } in
      let hit : claimable (clock 0) s s ≡ true =
        ground (arith, due, eq_option_iff s.retry_at s.retry_at) in
      let won : o.done ≡ true =
        rw (claim-done (clock 0) lock_seconds s s t.snapshots keyed found) hit in
      let kept : find s.pk u.snapshots ≡ some leased =
        ground (arith, hit, claim-rows (clock 0) lock_seconds s s t.snapshots keyed found) in
      let sealing =
        seal_lem (clock 1) leased u (claim-IsKeyed (clock 0) lock_seconds s t.snapshots keyed) kept
          is_open in
      let below : parent_is sealed s t ≡ true = ground (arith, parent, parent_sealed) in
      let open_row : eq_status s.status sealed ≡ false = ground (arith, is_open) in
      let claim : Queue.claim_processing_lock crawl_class (clock 0) lock_seconds s t.snapshots ≡ o =
        claim_lock-eq (clock 0) lock_seconds s t.snapshots is_open due in
      let same : o.self.pk ≡ s.pk = pk-claim (clock 0) lock_seconds s t.snapshots in
      let follow = follow_lem (clock 1) o.self leased u (rw same kept) below open_row in
      (
        followed sealing.0,
        rw (below, open_row, claim, won) (rw follow (rw sealing.1)),
        refl,
        sealing.2,
      )
