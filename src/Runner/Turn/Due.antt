-- ===== src/Runner/Turn/Due.antt =====
-- A lease that a worker wins in a turn of archivebox/services/runner.py is of a row that is due.
use archive_box.Base.{
  ℕ, ◌≡◌, Bool, true, false, ◌&&◌, ◌||◌, List, [], ◌∷◌, arith, ◌==◌, eq_option, eq_option_iff,
  lte_option, is_none, inl, inr, Bool-cases,
}
use archive_box.Queue.Table.{Row, sealed, eq_status, count_where}
use archive_box.Queue.{crawl_class, is_in, is_paused}
use archive_box.Queue

-- a filter that no row meets unless something holds
counted_only :
    {E : Type 0} (p : Row E → Bool) (q : Bool) (rows : List (Row E))
    → ((r : Row E) → p r ≡ true → q ≡ true)
    → (count_where p rows == 1) ≡ true
    → q ≡ true
unfolding count_where
counted_only p q [] h c = cc
counted_only p q (r ∷ rows) h c = elim (Bool-cases (p r)) [
  | inl met ↦ h r met
  | inr other ↦ counted_only p q rows h (rw other at c)
]

-- A worker wins a row only if it is due.
pub claim_for_worker-due :
    {E : Type 0} (now lock_seconds : ℕ) (s : Row E) (rows : List (Row E))
    → (Queue.claim_for_worker now lock_seconds s rows).done ≡ true
    → lte_option s.retry_at now ≡ true
unfolding Queue.claim_for_worker
claim_for_worker-due now lock_seconds s rows h =
    counted_only
      (λ r. r.pk == s.pk && (eq_option r.retry_at s.retry_at && lte_option r.retry_at now))
      (lte_option s.retry_at now) rows
      (λ r met. ground (arith, eq_option_iff r.retry_at s.retry_at)) h

pub claim_processing_lock-due :
    {E : Type 0} (now lock_seconds : ℕ) (s : Row E) (rows : List (Row E))
    → (Queue.claim_processing_lock crawl_class now lock_seconds s rows).done ≡ true
    → (lte_option s.retry_at now ≡ true) × (eq_status s.status sealed ≡ false)
unfolding Queue.claim_processing_lock
claim_processing_lock-due now lock_seconds s rows h =
    elim (Bool-cases (is_in s.status (sealed ∷ []) || is_none s.retry_at)) [
      | inl refused ↦ cc (rw refused at h)
      | inr tried ↦ (claim_for_worker-due now lock_seconds s rows (rw tried at h), ground arith)
    ]
