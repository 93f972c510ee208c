-- ===== src/Recovery/Woken.antt =====
-- What `recover_orchestrator_state` of archivebox/core/recovery_util.py makes of the snapshots.
use archive_box.Base.{
  ℕ, ◌≡◌, refl, ap, ◌∙◌, Bool, true, ◌&&◌, ◌||◌, ◌==◌, any, not, none, arith, is_none, all,
}
use archive_box.Queue.Table.{queued, started, eq_status}
use archive_box.Db.{Crawl, Snapshot, runnable_states}
use archive_box.Queue.{is_in}
use archive_box.Recovery.{
  Tables, lost_crawl, due_crawl, due_snapshot, is_leased, abandoned, has_running_process,
  reopened_snapshot, is_orphan, HookResult, is_running, process_is_live, crawl_in, lost_snapshot,
  set_crawls, repair_queued, reopen_uploads, close_orphans, unlock_snapshots,
}
use archive_box.Recovery.Rows.{all-update_where, all-true, any-update_where, all-both, any-same}

-- a result of the snapshot was running, and its process was not
abbrev pub interrupts : Tables → ℕ → HookResult → Bool
interrupts t k r =
    r.snapshot_id == k && (is_running r.status && not (process_is_live t.processes r.process))

abbrev pub has_orphan : Tables → ℕ → Bool
has_orphan t k = any (interrupts t k) t.results

-- A queued snapshot of a crawl that was runnable has an instant; a started one is due if a result of it
-- was interrupted, or no hook process of it runs.
abbrev pub is_queued_visible : Tables → Snapshot → Bool
is_queued_visible t s =
    not (eq_status s.status queued && is_none s.retry_at && crawl_in runnable_states s t.db)

abbrev pub is_started_visible : ℕ → Tables → Tables → Snapshot → Bool
is_started_visible now t u s = not (
    eq_status s.status started
    && (has_orphan t s.pk || not (has_running_process u s.pk))
    && is_leased now s.retry_at)

abbrev is_woken : ℕ → Tables → Snapshot → Bool
is_woken now t s = not (eq_status s.status started && has_orphan t s.pk && is_leased now s.retry_at)

abbrev is_unlocked : ℕ → Tables → Snapshot → Bool
is_unlocked now t s =
    not (eq_status s.status started && not (has_running_process t s.pk) && is_leased now s.retry_at)

module _ (now : ℕ) (t : Tables) where
  repaired_snapshots : all (is_queued_visible t) (repair_queued now none t).db.snapshots ≡ true
  unfolding repair_queued
  repaired_snapshots =
      all-update_where (λ s. true) (is_queued_visible t) (lost_snapshot none t'.db)
        (due_snapshot now) t.db.snapshots (λ s h. ground (arith, same s)) (all-true t.db.snapshots)
    where
      t' : Tables
      t' = set_crawls (lost_crawl none) (due_crawl now) t

      same : (s : Snapshot) → crawl_in runnable_states s t'.db ≡ crawl_in runnable_states s t.db
      same s =
          any-update_where
            (λ (c : Crawl). c.pk == s.columns.crawl_id && is_in c.status runnable_states)
            (lost_crawl none) (due_crawl now) t.db.crawls (λ c. refl)

  -- after each step of the recovery
  Queued : Tables → Type 0
  Queued u = all (is_queued_visible t) u.db.snapshots ≡ true

  Woken : Tables → Type 0
  Woken u = all (is_woken now t) u.db.snapshots ≡ true

  reopen-Queued : (u : Tables) → Queued u → Queued (reopen_uploads now none u)
  unfolding reopen_uploads Queued
  reopen-Queued u h =
      all-update_where (is_queued_visible t) (is_queued_visible t) _ (reopened_snapshot now)
        u.db.snapshots (λ s k. ground arith) h

  close-Queued : (u : Tables) → Queued u → Queued (close_orphans now none u)
  unfolding close_orphans Queued
  close-Queued u h =
      all-update_where (is_queued_visible t) (is_queued_visible t) _ (due_snapshot now)
        u.db.snapshots (λ s k. ground arith) h

  unlock-Queued : (u : Tables) → Queued u → Queued (unlock_snapshots now none u)
  unfolding unlock_snapshots Queued
  unlock-Queued u h =
      all-update_where (is_queued_visible t) (is_queued_visible t) (abandoned now none u)
        (due_snapshot now) u.db.snapshots (λ s k. ground arith) h

  close-Woken :
      (u : Tables)
      → u.results ≡ t.results
      → u.processes ≡ t.processes
      → Woken (close_orphans now none u)
  unfolding close_orphans Woken
  close-Woken u results processes =
      all-update_where (λ s. true) (is_woken now t) _ (due_snapshot now) u.db.snapshots
        (λ s h. ground (arith, orphans s)) (all-true u.db.snapshots)
    where
      orphans :
          (s : Snapshot)
          → any (λ (r : HookResult). r.snapshot_id == s.pk && is_orphan none u r) u.results
            ≡ has_orphan t s.pk
      orphans s =
          any-same (λ (r : HookResult). r.snapshot_id == s.pk && is_orphan none u r)
            (interrupts t s.pk) u.results (λ r. rw processes (ground arith))
          ∙ ap (any (interrupts t s.pk)) results

  unlock-Woken : (u : Tables) → Woken u → Woken (unlock_snapshots now none u)
  unfolding unlock_snapshots Woken
  unlock-Woken u h =
      all-update_where (is_woken now t) (is_woken now t) (abandoned now none u) (due_snapshot now)
        u.db.snapshots (λ s k. ground arith) h

  unlock-Unlocked :
      (u : Tables) → all (is_unlocked now u) (unlock_snapshots now none u).db.snapshots ≡ true
  unfolding unlock_snapshots
  unlock-Unlocked u =
      all-update_where (λ s. true) (is_unlocked now u) (abandoned now none u) (due_snapshot now)
        u.db.snapshots (λ s h. ground arith) (all-true u.db.snapshots)

  -- `closed` are the tables before the crawls and snapshots are unlocked
  pub snapshots_visible :
      let closed = close_orphans now none (reopen_uploads now none (repair_queued now none t)) in
      let u = unlock_snapshots now none closed in
      (all (is_queued_visible t) u.db.snapshots ≡ true)
      × (all (is_started_visible now t u) u.db.snapshots ≡ true)
  unfolding Queued Woken repair_queued reopen_uploads close_orphans unlock_snapshots
  snapshots_visible =
      let first = repair_queued now none t in
      let second = reopen_uploads now none first in
      let closed = close_orphans now none second in
      let u = unlock_snapshots now none closed in
      (
        unlock-Queued closed (close-Queued second (reopen-Queued first repaired_snapshots)),
        all-both (is_woken now t) (is_unlocked now closed) (is_started_visible now t u)
            u.db.snapshots (λ s h k. ground arith)
            (unlock-Woken closed (close-Woken second refl refl)) (unlock-Unlocked closed),
      )
