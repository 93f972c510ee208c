-- ===== src/Recovery/Statuses.antt =====
-- What `recover_orchestrator_state` of archivebox/core/recovery_util.py may change of a row.
use archive_box.Base.{ℕ, ◌≡◌, ◌⊎◌, false, ◌&&◌, none, List, any, some, eq_option}
use archive_box.Recovery.{
  Tables, Process, HookResult, running, failed, repair_queued, reopen_uploads, close_orphans,
  unlock_snapshots, unlock_crawls,
}

-- A result with a change of its status at most: from one that runs to a failed one, if its process does
-- not run.
abbrev pub Interrupts : List Process → HookResult → HookResult → Type 0
Interrupts processes r q =
    (q.snapshot_id ≡ r.snapshot_id)
    × (q.is_upload ≡ r.is_upload)
    × (q.process ≡ r.process)
    × ((q.status ≡ r.status)
        ⊎ ((r.status ≡ running)
            × (q.status ≡ failed)
            × (any (λ (p : Process). eq_option (some p.pk) r.process && p.is_live) processes
                ≡ false)))

module _ (now : ℕ) (t : Tables) where
  closed : Tables
  closed = close_orphans now none (reopen_uploads now none (repair_queued now none t))

  unlocked : Tables
  unlocked = unlock_crawls now none (unlock_snapshots now none closed)
