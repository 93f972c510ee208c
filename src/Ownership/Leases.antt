-- ===== src/Ownership/Leases.antt =====
-- The lease of a run on its snapshot (archivebox/services/snapshot_service.py).
use mathlib.Core.Option
use archive_box.Text.{Text}
use archive_box.Base.{
  ap, Option-cases, ◌&&◌, ◌+◌, ℕ, ◌≡◌, ◌∙◌, ◌≢◌, ◌⊎◌, inl, inr, refl, Bool, true, false, ◌&&◌, not,
  Option, none, some, List, arith, ◌==◌, eq_option_iff, Bool-cases,
}
use archive_box.Queue.Table.{
  status_at, pk-find, find-update_where, queued, IsKeyed, find, started, eq_status, count_where-key,
  change_if,
}
use archive_box.Queue.Table.Keyed.{find-update_where_self, update_where_miss}
use archive_box.Db.{Snapshot, Db}
use archive_box.Crawls.Limits.{Reason}
use archive_box.Ownership.{Owner, State, owner_of, renewed, holds, renew_owned, renew_lease}
use archive_box.Ownership.Completion.{
  mark_downloaded, downloaded, close_queued, closed, ends_crawl, is_owned, consume_after,
  finalize_completed_snapshot,
}

-- the lease that the service has on record, and that of the row
abbrev pub lease_on_record : ℕ → State → Option (Option ℕ)
lease_on_record k st = elim (owner_of k st.owners) [ none ↦ none | some o ↦ some o.owned_retry_at ]

renew_lease-eq :
    (now lease_until k : ℕ) (st : State) (o : Owner)
    → owner_of k st.owners ≡ some o
    → o.was_sealed ≡ false
    → renew_lease now lease_until k st ≡ renew_owned now lease_until k o st
unfolding renew_lease
renew_lease-eq now lease_until k st o owned fresh = ground arith

abbrev pub Renewed : ℕ → ℕ → ℕ → State → Owner → Snapshot → Option Bool × State → Type 0
Renewed now lease_until k st o s (answer, after) =
    ((holds o s ≡ true)
      × (answer ≡ some true)
      × (lease_on_record k after ≡ some (some lease_until))
      × (find k after.db.snapshots ≡ some (renewed lease_until now s)))
    ⊎ ((holds o s ≡ false) × (answer ≡ some false) × (after ≡ st))

renew_owned_lem :
    (now lease_until k : ℕ) (st : State) (o : Owner) (s : Snapshot)
    → IsKeyed st.db.snapshots
    → find k st.db.snapshots ≡ some s
    → Renewed now lease_until k st o s (renew_owned now lease_until k o st)
unfolding renew_owned
renew_owned_lem now lease_until k st o s keyed found =
    let count = count_where-key k (holds o) st.db.snapshots keyed in
    let written =
      find-update_where_self k (holds o) (renewed lease_until now) st.db.snapshots s (λ r. refl)
        found in
    elim (Bool-cases (holds o s)) [
      | inl hit ↦ rw (count, found, hit) (inl (refl, refl, ground arith, rw written (rw hit refl)))
      | inr miss ↦
          let same =
            update_where_miss _ (renewed lease_until now) st.db.snapshots
              (count ∙ rw found (rw miss refl)) in
          rw (count, found, miss) (inr (refl, refl, rw same refl))
    ]

-- In a table with unique keys, the owner of a run that did not start from a sealed snapshot renews its
-- lease exactly if the row is started and has the lease on record; then the row and the record both
-- have the new lease. Otherwise the answer is `False` and neither changes.
pub renew_lease_lem :
    (now lease_until k : ℕ) (st : State) (o : Owner) (s : Snapshot)
    → IsKeyed st.db.snapshots
    → owner_of k st.owners ≡ some o
    → o.was_sealed ≡ false
    → find k st.db.snapshots ≡ some s
    → Renewed now lease_until k st o s (renew_lease now lease_until k st)
renew_lease_lem now lease_until k st o s keyed owned fresh found =
    rw (renew_lease-eq now lease_until k st o owned fresh)
      (renew_owned_lem now lease_until k st o s keyed found)

-- a change of the row with key `k` that leaves its status
status-map :
    (k : ℕ) (f : Snapshot → Snapshot) (t : Db)
    → ((r : Snapshot) → r.pk ≡ k → (f r).status ≡ r.status)
    → Option.map (λ (r : Snapshot). r.status) (Option.map f (find k t.snapshots))
      ≡ status_at k t.snapshots
status-map k f t keep = elim (Option-cases (find k t.snapshots)) [
  | inl e ↦ rw e refl
  | inr (r, e) ↦ rw e (ap some (keep r (pk-find k t.snapshots r e)))
]

mark_downloaded-status :
    (clock : ℕ → ℕ) (s : Snapshot) (t : Db) (k : ℕ)
    → status_at k (mark_downloaded clock s t).snapshots ≡ status_at k t.snapshots
unfolding mark_downloaded
mark_downloaded-status clock s t k = elim (Option-cases s.columns.downloaded_at) [
  | inr (at, e) ↦ rw e refl
  | inl e ↦ rw e (
      ap (Option.map (λ (r : Snapshot). r.status)) (
        find-update_where k (λ r. r.pk == s.pk) (downloaded (clock 0) (clock 1)) t.snapshots
          (λ r. refl))
      ∙ status-map k (change_if (λ r. r.pk == s.pk) (downloaded (clock 0) (clock 1))) t
          (λ r e. ground arith))
]

close_queued-status :
    (now : ℕ) (reason : Reason) (s : Snapshot) (t : Db)
    → status_at s.pk (close_queued now reason s t).snapshots ≡ status_at s.pk t.snapshots
unfolding close_queued
close_queued-status now reason s t =
    let p : Snapshot → Bool = λ r.
      r.columns.crawl_id == s.columns.crawl_id
      && (eq_status r.status queued && not (r.pk == s.pk)) in
    elim (Bool-cases (ends_crawl reason)) [
      | inr e ↦ rw e refl
      | inl e ↦ rw e (
          ap (Option.map (λ (r : Snapshot). r.status))
            (find-update_where s.pk p (closed now) t.snapshots (λ r. refl))
          ∙ status-map s.pk (change_if p (closed now)) t (λ r same. ground (arith, same)))
    ]

consume_after-started :
    (clock : ℕ → ℕ) (owned : Option ℕ) (was_sealed : Bool) (consumed : List Text) (s : Snapshot)
    (t : Db)
    → s.status ≡ started
    → consume_after clock owned was_sealed consumed s t ≡ some t
unfolding consume_after
consume_after-started clock owned was_sealed consumed s t runs = ground arith

-- The completion of a run that lost its lease, on a snapshot that another run has started, returns
-- and leaves the status of that snapshot as the projection of the discovered URLs left it: it
-- neither seals it nor closes it with the crawl's queue.
pub finalize_completed-stale :
    (finalize : Snapshot → Db → Db) (discover : ℕ → Db → Db) (clock : ℕ → ℕ) (owned : Option ℕ)
    (was_sealed : Bool) (consumed : List Text) (reason : Reason) (s : Snapshot) (t : Db)
    → find s.pk t.snapshots ≡ some s
    → s.status ≡ started
    → s.retry_at ≢ owned
    → (u : Db) × (finalize_completed_snapshot finalize discover clock owned was_sealed consumed
          reason s.pk t
        ≡ some u)
      × (status_at s.pk u.snapshots ≡ status_at s.pk (discover s.pk t).snapshots)
unfolding finalize_completed_snapshot
finalize_completed-stale finalize discover clock owned was_sealed consumed reason s t found runs
      lost =
    let marked = mark_downloaded clock s (discover s.pk t) in
    let ready = close_queued (clock 2) reason s marked in
    let no : is_owned was_sealed owned s ≡ false = ground (arith, eq_option_iff s.retry_at owned) in
    (
      ready,
      ground (
        arith,
        found,
        no,
        consume_after-started (λ n. clock (4 + n)) owned was_sealed consumed s ready runs,
      ),
      close_queued-status (clock 2) reason s marked
          ∙ mark_downloaded-status clock s (discover s.pk t) s.pk,
    )
