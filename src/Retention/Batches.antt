-- ===== src/Retention/Batches.antt =====
-- What one sweep deletes (archivebox/base_models/models.py).
use archive_box.Base.{
  ℕ, zero, suc, ◌≡◌, ◌≤◌, refl, Bool, true, not, Option, List, [], ◌∷◌, arith, if◌then◌else◌, ◌==◌,
  any, select, take, length, length-take, All, All-select, Bool-cases, inl, inr,
}
use archive_box.Queue.Table.{Status}
use archive_box.Retention.{
  Expiring, is_due, is_final, comes_before, insert_row, in_order, backfill, due_batch,
  delete_expired,
}

module _ (P : Expiring → Type 0) where
  insert_row-All : (r : Expiring) (t : List Expiring) → P r → All P t → All P (insert_row r t)
  unfolding insert_row
  insert_row-All r [] p h = (p, tt)
  insert_row-All r (x ∷ t) p h = elim (Bool-cases (comes_before r x)) [
    | inl e ↦ rw e (p, h)
    | inr e ↦ rw e (h.0, insert_row-All r t p h.1)
  ]

  in_order-All : (t : List Expiring) → All P t → All P (in_order t)
  unfolding in_order
  in_order-All [] h = tt
  in_order-All (r ∷ t) h = insert_row-All r (in_order t) h.0 (in_order-All t h.1)

  take-All : (n : ℕ) (t : List Expiring) → All P t → All P (take n t)
  take-All zero t h = tt
  take-All (suc n) [] h = tt
  take-All (suc n) (x ∷ t) h = (h.0, take-All n t h.1)

select-both : (p : Expiring → Bool) (t : List Expiring) → All (λ r. p r ≡ true) (select p t)
unfolding select
select-both p [] = tt
select-both p (r ∷ t) = elim (Bool-cases (p r)) [
  | inl e ↦ rw e (e, select-both p t)
  | inr e ↦ rw e (select-both p t)
]

length-select : (p : Expiring → Bool) (t : List Expiring) → length (select p t) ≤ length t
unfolding select
length-select p [] = omega arith
length-select p (r ∷ t) = ground (arith, length-select p t)

-- One sweep deletes only rows that are due and, where there is such a test, final, no more of them
-- than the size of a batch, and reports their number; no row that it leaves has a deleted key.
pub delete_expired_lem :
    (now : ℕ) (final_statuses : List Status) (batch_size : ℕ) (backfill_missing : Bool)
    (candidates : List (ℕ × Option ℕ)) (t : List Expiring)
    → let r = delete_expired now final_statuses batch_size backfill_missing candidates t in
      All (λ e. (is_due now e ≡ true) × (is_final final_statuses e ≡ true)) r.deleted
      × (r.count ≡ length r.deleted)
      × (r.count ≤ batch_size)
      × All (λ x. not (any (λ e. e.pk == x.pk) r.deleted) ≡ true) r.rows
unfolding delete_expired due_batch
delete_expired_lem now final_statuses batch_size backfill_missing candidates t =
    let filled = if backfill_missing then backfill (take batch_size candidates) t else t in
    let due = in_order (select (is_due now) filled) in
    let batch = take batch_size due in
    let expired = select (is_final final_statuses) batch in
    (
      All-select (λ e. is_due now e ≡ true) (is_final final_statuses) batch
          (take-All (λ e. is_due now e ≡ true) batch_size due
            (in_order-All (λ e. is_due now e ≡ true) (select (is_due now) filled)
              (select-both (is_due now) filled))),
      refl,
      omega (arith, length-select (is_final final_statuses) batch, length-take batch_size due),
      select-both (λ x. not (any (λ e. e.pk == x.pk) expired)) filled,
    )
