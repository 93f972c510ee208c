-- ===== src/Queue/Sealed.antt =====
-- Sealed rows stay sealed under the queue protocol of archivebox/workers/models.py.
use archive_box.Base.{
  ℕ, ◌≡◌, refl, Bool, if◌then◌else◌, or_else, ◌==◌, ◌&&◌, ◌||◌, ◌+◌, is_none, eq_option, lte_option,
  true, false, Option, some, List, [], ◌∷◌, arith,
}
use archive_box.Queue.Table.{
  sealed, paused, queued, eq_status, eq_status_iff, Row, KeepsKey, status_at, update_where,
  status_at-update_where, change_if,
}
use archive_box.Queue.Update.{write-KeepsKey}
use archive_box.Queue.{
  has_status, is_in, unchanged, move_to, retry_at_max, lease, seconds, crawl_class, Changes,
  Outcome, write, safe_update,
}
use archive_box.Queue

-- a table whose sealed rows another one still has as sealed rows
pub record KeepsSealed {E : Type 0} (t u : List (Row E)) : Type 0 where
  pub at_key : (k : ℕ) → status_at k t ≡ some sealed → status_at k u ≡ some sealed

module _ {E : Type 0} where
  pub KeepsSealed-refl : (t : List (Row E)) → KeepsSealed t t
  KeepsSealed-refl t = record { at_key = λ k h. h }

  pub KeepsSealed-trans :
      (t u v : List (Row E)) → KeepsSealed t u → KeepsSealed u v → KeepsSealed t v
  KeepsSealed-trans t u v h g = record { at_key = λ k s. g.at_key k (h.at_key k s) }

  pub update_where-KeepsSealed :
      (p : Row E → Bool) (f : Row E → Row E) (t : List (Row E))
      → KeepsKey f
      → ((r : Row E) → r.status ≡ sealed → (change_if p f r).status ≡ sealed)
      → KeepsSealed t (update_where p f t)
  update_where-KeepsSealed p f t keep stays = record {
    at_key = λ k h. status_at-update_where sealed k p f t keep stays h;
  }

  rows_if-KeepsSealed :
      (c : Bool) (t : List (Row E)) (a b : Outcome E)
      → (c ≡ true → KeepsSealed t a.rows)
      → (c ≡ false → KeepsSealed t b.rows)
      → KeepsSealed t (if c then a else b).rows
  rows_if-KeepsSealed true t a b ha hb = ha refl
  rows_if-KeepsSealed false t a b ha hb = hb refl

  -- A guarded update keeps the sealed rows if it seals those that its guard lets through.
  pub safe_update-KeepsSealed :
      (now : ℕ) (c : Changes E) (refresh : Bool) (guard : Row E → Bool) (self : Row E)
      (t : List (Row E))
      → ((r : Row E) → r.status ≡ sealed → guard r ≡ true → or_else c.status r.status ≡ sealed)
      → KeepsSealed t (safe_update now c refresh guard self t).rows
  unfolding safe_update
  safe_update-KeepsSealed now c refresh guard self t stays =
      update_where-KeepsSealed (λ r. r.pk == self.pk && guard r) (write now c) t
        (write-KeepsKey now c) (λ r h. ground (arith, stays r h))

  pub pause-KeepsSealed :
      (now : ℕ) (self : Row E) (t : List (Row E))
      → KeepsSealed t (Queue.pause crawl_class now true self t).rows
  unfolding Queue.pause
  pause-KeepsSealed now self t =
      rows_if-KeepsSealed (is_in self.status (sealed ∷ []) || eq_status self.status paused) t
        (unchanged self t) _ (λ _. KeepsSealed-refl t)
        (λ open_row.
          safe_update-KeepsSealed now (move_to paused (some retry_at_max)) true
            (has_status self.status) _ t
            (λ r h g. ground (arith, open_row, eq_status_iff r.status self.status)))

  pub resume-KeepsSealed :
      (when : Option ℕ) (now stamp : ℕ) (self : Row E) (t : List (Row E))
      → KeepsSealed t (Queue.resume crawl_class when now stamp true self t).rows
  unfolding Queue.resume
  resume-KeepsSealed when now stamp self t =
      rows_if-KeepsSealed (eq_status self.status paused) t _ (unchanged self t)
        (λ _.
          safe_update-KeepsSealed stamp (move_to queued (some (or_else when now))) true
            (has_status paused) _ t (λ r h g. ground arith))
        (λ _. KeepsSealed-refl t)

  pub claim-KeepsSealed :
      (now lock_seconds : ℕ) (self : Row E) (t : List (Row E))
      → KeepsSealed t (Queue.claim_processing_lock crawl_class now lock_seconds self t).rows
  unfolding Queue.claim_processing_lock Queue.claim_for_worker
  claim-KeepsSealed now lock_seconds self t =
      rows_if-KeepsSealed (is_in self.status (sealed ∷ []) || is_none self.retry_at) t
        (unchanged self t) _ (λ _. KeepsSealed-refl t)
        (λ _.
          update_where-KeepsSealed
            (λ r.
              r.pk == self.pk && (eq_option r.retry_at self.retry_at && lte_option r.retry_at now))
            (lease now (now + seconds lock_seconds)) t (λ r. refl) (λ r h. ground arith))
