-- ===== src/Services/Cancelling.antt =====
-- `Crawl.cancel` of archivebox/crawls/models.py, followed by the runner's reconciliation of the
-- snapshots that it woke (archivebox/core/models.py).
use mathlib.Core.Option
use mathlib.Core.Path.{subst}
use archive_box.Base.{ℕ, ◌≤◌, ◌≡◌, refl, sym, Bool, true, ◌&&◌, not, some, arith, lte_option}
use archive_box.Queue.Table.{
  find, eq_status, sealed, IsKeyed, KeepsKey, change_if, status_at, find-update_where,
  update_where-IsKeyed, pk-find,
}
use archive_box.Queue.Table.Keyed.{find-update_where_self}
use archive_box.Queue.{is_in}
use archive_box.Db.{Crawl, Snapshot, Db, open_states, wake_children, wake, child_in, is_asleep}
use archive_box.Crawls.Lifecycle
use archive_box.Crawls.Lifecycle.{schedule_child_snapshots_for_sealing, seal_at}
use archive_box.Snapshots
use archive_box.Snapshots.{Reconciled}
use archive_box.Snapshots.Kept.{FinalizeKeeps}
use archive_box.Snapshots.Sealing.{reconcile-seals}

-- the filter of the children that a cancellation wakes
abbrev is_woken : ℕ → ℕ → Snapshot → Bool
is_woken now crawl_id s = child_in crawl_id open_states s && is_asleep now s.retry_at

wake-KeepsKey : (now : ℕ) → KeepsKey (wake now)
wake-KeepsKey now s = refl

module _ (clock : ℕ → ℕ) (c : Crawl) (t : Db) where
  find-cancel :
      (k : ℕ)
      → find k (Lifecycle.cancel clock c t).1.snapshots
        ≡ Option.map (change_if (is_woken (clock 1) c.pk) (wake (clock 1))) (find k t.snapshots)
  unfolding Lifecycle.cancel schedule_child_snapshots_for_sealing wake_children
  find-cancel k = find-update_where k _ _ t.snapshots (wake-KeepsKey (clock 1))

  cancel-IsKeyed : IsKeyed t.snapshots → IsKeyed (Lifecycle.cancel clock c t).1.snapshots
  unfolding Lifecycle.cancel schedule_child_snapshots_for_sealing wake_children
  cancel-IsKeyed keyed = update_where-IsKeyed _ _ t.snapshots (wake-KeepsKey (clock 1)) keyed

  cancelled_row : Crawl → Crawl
  cancelled_row row =
      change_if (λ (x : Crawl). not (eq_status x.status sealed)) (seal_at (clock 0)) row

  find-cancel_crawl :
      (row : Crawl)
      → find c.pk t.crawls ≡ some row
      → find c.pk (Lifecycle.cancel clock c t).1.crawls ≡ some (cancelled_row row)
  unfolding Lifecycle.cancel schedule_child_snapshots_for_sealing wake_children cancelled_row
  find-cancel_crawl row found =
      find-update_where_self c.pk (λ x. not (eq_status x.status sealed)) (seal_at (clock 0))
        t.crawls row (λ r. refl) found

  cancelled_row-sealed : (row : Crawl) → (cancelled_row row).status ≡ sealed
  unfolding cancelled_row
  cancelled_row-sealed row = ground arith

-- A crawl that is in its table is cancelled, and a snapshot of it is queued, started or paused in a
-- table with unique keys. Then the runner's first reconciliation of that snapshot, at an instant not
-- before the one that the cancellation wrote, succeeds and seals it, as long as
-- `finalize_output_metadata` keeps what is sealed.
pub cancel-reconcile :
    (finalize : Snapshot → Db → Db) (clock clock' : ℕ → ℕ) (lock_seconds k : ℕ) (c row : Crawl)
    (s : Snapshot) (t : Db)
    → FinalizeKeeps finalize
    → IsKeyed t.snapshots
    → find k t.snapshots ≡ some s
    → find c.pk t.crawls ≡ some row
    → s.columns.crawl_id ≡ c.pk
    → is_in s.status open_states ≡ true
    → clock 1 ≤ clock' 0
    → let u = (Lifecycle.cancel clock c t).1 in
      (s' : Snapshot) × (find k u.snapshots ≡ some s')
      × (r : Reconciled) × (Snapshots.reconcile_parent_lifecycle finalize clock' lock_seconds s' u
          ≡ some r)
      × (r.answer ≡ some true)
      × (status_at k r.db.snapshots ≡ some sealed)
cancel-reconcile finalize clock clock' lock_seconds k c row s t keeps keyed found parent child
      is_open later =
    let u = (Lifecycle.cancel clock c t).1 in
    let woken = change_if (is_woken (clock 1) c.pk) (wake (clock 1)) s in
    let at_k : find k u.snapshots ≡ some woken = rw (find-cancel clock c t k) (rw found) in
    let key : woken.pk ≡ k = pk-find k u.snapshots woken at_k in
    let columns : woken.columns ≡ s.columns = ground arith in
    let same_status : woken.status ≡ s.status = ground arith in
    let due : lte_option woken.retry_at (clock' 0) ≡ true = ground arith in
    let sealing =
      reconcile-seals finalize keeps clock' lock_seconds woken (cancelled_row clock c t row) u
        (cancel-IsKeyed clock c t keyed)
        (subst (λ j. find j u.snapshots ≡ some woken) (sym key) at_k)
        (rw columns (rw child (find-cancel_crawl clock c t row parent)))
        (cancelled_row-sealed clock c t row) (rw same_status is_open) due in
    (
      woken,
      at_k,
      sealing.0,
      sealing.1,
      sealing.2,
      subst (λ j. status_at j sealing.0.db.snapshots ≡ some sealed) key sealing.3,
    )
