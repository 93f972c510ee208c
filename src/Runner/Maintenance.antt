-- ===== src/Runner/Maintenance.antt =====
-- `run_snapshot_maintenance` and `seal_snapshot_due_to_limit` of archivebox/services/runner.py. The
-- migration of the files and the index file are left out.
use archive_box.Base.{
  ℕ, ◌≡◌, ◌∙◌, refl, Bool, true, false, ◌&&◌, Option, none, some, [], ◌∷◌, arith, if◌then◌else◌,
  eq_option, eq_option_iff,
}
use archive_box.Queue.Table.{IsKeyed, find, sealed, eq_status, eq_status_iff}
use archive_box.Queue.{Changes, no_changes, move_to, has_status, is_in, safe_update}
use archive_box.Queue.Update.{safe_update_lem}
use archive_box.Db.{SnapshotColumns, Crawl, Snapshot, Db, open_states}
use archive_box.Snapshots
use archive_box.Snapshots.{Result}

abbrev pub is_pending : Snapshot → Bool
is_pending s = elim s.columns.retry_plugins [ [] ↦ false | _ ∷ _ ↦ true ]

-- the instant that the maintenance leaves
abbrev pub next_retry_at : ℕ → Snapshot → Option ℕ
next_retry_at now s =
    if eq_status s.status sealed && is_pending s
    then s.retry_at
    else if is_in s.status open_states
    then some now
    else none

abbrev pub retry_change : Option ℕ → Changes SnapshotColumns
retry_change at = record no_changes { retry_at = some at }

abbrev pub as_loaded : Snapshot → Snapshot → Bool
as_loaded s r = has_status s.status r && eq_option r.retry_at s.retry_at

-- the update on the loaded snapshot
maintain : (ℕ → ℕ) → Snapshot → Db → Bool × Db
maintain clock s db =
    let o =
      safe_update (clock 1) (retry_change (next_retry_at (clock 0) s)) false (as_loaded s) s
        db.snapshots in
    (o.done, record db { snapshots = o.rows })

unfoldable pub run_snapshot_maintenance : (ℕ → ℕ) → ℕ → Db → Bool × Db
unfolding find maintain safe_update
run_snapshot_maintenance clock k db = elim (find k db.snapshots) [
  | none ↦ (false, db)
  | some s ↦ maintain clock s db
]

-- `crawl` is the related object of the snapshot
unfoldable pub seal_snapshot_due_to_limit : (ℕ → ℕ) → Crawl → ℕ → Db → Db
unfolding find Snapshots.update_and_requeue
seal_snapshot_due_to_limit clock crawl k db = elim (find k db.snapshots) [
  | none ↦ db
  | some s ↦
      if eq_status s.status sealed
      then db
      else (Snapshots.update_and_requeue clock (move_to sealed none) crawl s db).db
]

abbrev pub Maintained : (ℕ → ℕ) → Snapshot → Bool × Db → Type 0
Maintained clock s (done, u) =
    (done ≡ true)
    × (find s.pk u.snapshots
        ≡ some (record s { retry_at = next_retry_at (clock 0) s; modified_at = clock 1 }))

maintain_lem :
    (clock : ℕ → ℕ) (s : Snapshot) (t : Db)
    → IsKeyed t.snapshots
    → find s.pk t.snapshots ≡ some s
    → Maintained clock s (maintain clock s t)
unfolding maintain
maintain_lem clock s t keyed found =
    let g =
      safe_update_lem (clock 1) (retry_change (next_retry_at (clock 0) s)) false (as_loaded s) s s
        t.snapshots keyed found in
    let same : as_loaded s s ≡ true =
      ground (arith, eq_status_iff s.status s.status, eq_option_iff s.retry_at s.retry_at) in
    (g.reported ∙ same, g.written ∙ rw same refl)

run_snapshot_maintenance-maintain :
    (clock : ℕ → ℕ) (s : Snapshot) (t : Db)
    → find s.pk t.snapshots ≡ some s
    → run_snapshot_maintenance clock s.pk t ≡ maintain clock s t
unfolding run_snapshot_maintenance
run_snapshot_maintenance-maintain clock s t found = ground (arith, found)

-- The maintenance of a snapshot that is in a table with unique keys succeeds and writes the instant
-- alone: it keeps that of a sealed snapshot with plugins to retry, makes an open one due at once, and
-- takes any other off the queue.
pub run_snapshot_maintenance_lem :
    (clock : ℕ → ℕ) (s : Snapshot) (t : Db)
    → IsKeyed t.snapshots
    → find s.pk t.snapshots ≡ some s
    → Maintained clock s (run_snapshot_maintenance clock s.pk t)
run_snapshot_maintenance_lem clock s t keyed found =
    rw (run_snapshot_maintenance-maintain clock s t found) (maintain_lem clock s t keyed found)
