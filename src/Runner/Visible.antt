-- ===== src/Runner/Visible.antt =====
-- A crawl that waits for its snapshots stays in the queue (archivebox/services/runner.py).
use mathlib.Core.Path.{subst}
use archive_box.Base.{
  sym, select, gt_option, ◌&&◌, ap, ◌∙◌, ◌⊎◌, not, List, Option, none, ℕ, ◌+◌, ◌≡◌, inl, inr, refl,
  true, false, some, ◌==◌, arith, or_else, eq_option, eq_option_iff, any, Bool-cases,
}
use archive_box.Text.{Text}
use archive_box.Queue.Table.{started, IsKeyed, find, count_where}
use archive_box.Queue.{no_changes, is_in, write}
use archive_box.Queue
use archive_box.Queue.Update.{safe_update_lem}
use archive_box.Runner.Waiting.{
  is_lost, is_later_child, IsNext, next_after-IsNext, count-is_lost, repair-is_lost, repair_none,
}
use archive_box.Db.{child_in, open_states, Snapshot, Crawl, Db, runnable_states, is_child}
use archive_box.Crawls.Urls.{Decoded}
use archive_box.Crawls.Lifecycle.{is_finished}
use archive_box.Runner.{
  next_after, refreshed, is_due_child, is_unlocked, requeue, repair, wait_for_children,
  next_snapshot_retry, run_active, run_due_crawl,
}

abbrev pub waiting : ℕ → ℕ → Crawl → Crawl
waiting now at row = record row { status = started; retry_at = some at; modified_at = now }

requeue_row :
    (now at : ℕ) (c row : Crawl) (t : Db)
    → IsKeyed t.crawls
    → find c.pk t.crawls ≡ some row
    → row.retry_at ≡ c.retry_at
    → find c.pk (requeue now (some started) (some at) c t).crawls ≡ some (waiting now at row)
unfolding Queue.update_and_requeue
requeue_row now at c row t keyed found same =
    let g =
      safe_update_lem now (record no_changes { status = some started; retry_at = some (some at) })
        true (λ r. eq_option r.retry_at c.retry_at) c row t.crawls keyed found in
    ground (arith, g.written, same, eq_option_iff row.retry_at c.retry_at)

-- When a crawl is due again whose snapshots are `ss`: at once, if one of them is queued without an
-- instant; or else at the first instant after `now` of those that are open, and ten seconds after `now`
-- where there is none.
abbrev pub IsWake : ℕ → ℕ → List Snapshot → ℕ → Type 0
IsWake k now ss at =
    ((any (is_lost k) ss ≡ true) × (at ≡ now))
    ⊎ ((any (is_lost k) ss ≡ false)
        × ((IsNext k now ss (some at))
            ⊎ ((any (is_later_child k now) ss ≡ false) × (at ≡ now + Queue.seconds 10))))

next-IsWake :
    (k now : ℕ) (ss : List Snapshot) (o : Option ℕ)
    → any (is_lost k) ss ≡ false
    → IsNext k now ss o
    → IsWake k now ss (or_else o (now + Queue.seconds 10))
next-IsWake k now ss none kept h = inr (kept, inr (h, refl))
next-IsWake k now ss (some at) kept h = inr (kept, inl h)

wait_row :
    (clock : ℕ → ℕ) (c row : Crawl) (t : Db)
    → IsKeyed t.crawls
    → find c.pk t.crawls ≡ some row
    → row.retry_at ≡ c.retry_at
    → let u = wait_for_children clock c t in
      (at : ℕ) × (find c.pk u.crawls ≡ some (waiting (clock 1) at row))
      × IsWake c.pk (clock 0) t.snapshots at
      × (any (is_lost c.pk) u.snapshots ≡ false)
unfolding wait_for_children next_snapshot_retry
wait_row clock c row t keyed found same =
    let now = clock 0 in
    let fixed = repair now c.pk t in
    let later = or_else (next_snapshot_retry now c.pk fixed) (now + Queue.seconds 10) in
    elim (Bool-cases (any (is_lost c.pk) t.snapshots)) [
      | inl lost ↦
          let counted : (count_where (is_unlocked c.pk) t.snapshots == 0) ≡ false =
            count-is_lost c.pk t.snapshots ∙ ap not lost in
          (
            now,
            rw counted (requeue_row (clock 1) now c row fixed keyed found same),
            inl (lost, refl),
            rw counted (repair-is_lost now c.pk t.snapshots),
          )
      | inr kept ↦
          let counted : (count_where (is_unlocked c.pk) t.snapshots == 0) ≡ true =
            count-is_lost c.pk t.snapshots ∙ ap not kept in
          (
            later,
            rw counted (requeue_row (clock 1) later c row fixed keyed found same),
            subst
                (λ ss. IsWake c.pk now t.snapshots (
                  or_else
                    (next_after c.pk
                      (select (λ s. child_in c.pk open_states s && gt_option s.retry_at now) ss))
                    (now + Queue.seconds 10)))
                (sym (repair_none now c.pk t.snapshots kept))
                (next-IsWake c.pk now t.snapshots _ kept (next_after-IsNext c.pk now t.snapshots)),
            rw counted (repair-is_lost now c.pk t.snapshots),
          )
    ]

-- A turn for a crawl that is queued or started in a table with unique keys, and that has snapshots,
-- which are neither due nor all done, succeeds and makes the crawl wait for them, however stale the
-- object is that the runner selected: the crawl is started, and has an instant. That is the reading of
-- the clock if a queued snapshot of it had no instant, and no queued snapshot of it is without one
-- after the turn. Otherwise it is the first instant after that reading of its snapshots that are queued,
-- started or paused, and ten seconds after the reading where there is none.
pub run_due_crawl-visible :
    (decode : Text → Decoded) (run : ℕ → Db → Db) (clock : ℕ → ℕ) (lock_seconds : ℕ)
    (self row : Crawl) (t : Db)
    → IsKeyed t.crawls
    → find self.pk t.crawls ≡ some row
    → is_in row.status runnable_states ≡ true
    → any (is_child self.pk) t.snapshots ≡ true
    → any (is_due_child self.pk (clock 0)) t.snapshots ≡ false
    → is_finished self t ≡ false
    → (at : ℕ) × (u : Db) × (run_due_crawl decode run clock lock_seconds self t ≡ some (true, u))
      × (find self.pk u.crawls ≡ some (waiting (clock 1) at row))
      × IsWake self.pk (clock 0) t.snapshots at
      × (any (is_lost self.pk) u.snapshots ≡ false)
unfolding run_due_crawl run_active is_finished
run_due_crawl-visible decode run clock lock_seconds self row t keyed found active has_some none_due
      unfinished =
    let c = refreshed self row in
    let w = wait_row clock c row t keyed found refl in
    (
      w.0,
      wait_for_children clock c t,
      ground (arith, found, active, has_some, none_due, unfinished),
      w.1,
      w.2,
      w.3,
    )
