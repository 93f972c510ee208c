-- ===== src/Queue/Order.antt =====
-- What `get_queue` of archivebox/workers/models.py returns.
use archive_box.Base.{
  ℕ, suc, ◌≡◌, ◌≤◌, refl, ◌∙◌, ap, true, List, [], ◌∷◌, arith, lte_option, or_else, select, length,
  All, Bool-cases, inl, inr,
}
use archive_box.Queue.Table.{Row, count_where}
use archive_box.Queue.{get_queue, insert_by_retry_at, order_by_retry_at}

module _ {E : Type 0} where
  -- an instant of a row that is due
  abbrev pub instant : Row E → ℕ
  instant r = or_else r.retry_at 0

  abbrev pub IsDue : ℕ → Row E → Type 0
  IsDue now r = lte_option r.retry_at now ≡ true

  -- in the order of their instants
  abbrev pub IsOrdered : List (Row E) → Type 0
  IsOrdered [] = Unit
  IsOrdered (r ∷ t) = All (λ x. instant r ≤ instant x) t × IsOrdered t

  All-insert :
      (P : Row E → Type 0) (r : Row E) (t : List (Row E))
      → P r
      → All P t
      → All P (insert_by_retry_at r t)
  unfolding insert_by_retry_at
  All-insert P r [] p h = (p, tt)
  All-insert P r (x ∷ t) p h = elim (Bool-cases (lte_option r.retry_at (or_else x.retry_at 0))) [
    | inl e ↦ rw e (p, h)
    | inr e ↦ rw e (h.0, All-insert P r t p h.1)
  ]

  All-from :
      (a b : ℕ) (t : List (Row E)) → a ≤ b → All (λ x. b ≤ instant x) t → All (λ x. a ≤ instant x) t
  All-from a b [] below h = tt
  All-from a b (x ∷ t) below h = (omega (arith, h.0), All-from a b t below h.1)

  insert-IsOrdered :
      (now : ℕ) (r : Row E) (t : List (Row E))
      → IsDue now r
      → IsOrdered t
      → IsOrdered (insert_by_retry_at r t)
  unfolding insert_by_retry_at
  insert-IsOrdered now r [] due h = (tt, tt)
  insert-IsOrdered now r (x ∷ t) due h =
      elim (Bool-cases (lte_option r.retry_at (or_else x.retry_at 0))) [
        | inl e ↦
            let below : instant r ≤ instant x = ground (arith, due, e) in
            rw e ((below, All-from (instant r) (instant x) t below h.0), h)
        | inr e ↦
            let above : instant x ≤ instant r = ground (arith, due, e) in
            rw e (
              All-insert (λ y. instant x ≤ instant y) r t above h.0,
              insert-IsOrdered now r t due h.1,
            )
      ]

  length-insert : (r : Row E) (t : List (Row E)) → length (insert_by_retry_at r t) ≡ suc (length t)
  unfolding insert_by_retry_at
  length-insert r [] = refl
  length-insert r (x ∷ t) = ground (arith, length-insert r t)

  -- The queue at an instant holds due rows only, as many as the table has, in the order of their
  -- instants.
  pub get_queue-IsOrdered :
      (now : ℕ) (t : List (Row E))
      → All (IsDue now) (get_queue now t)
        × IsOrdered (get_queue now t)
        × (length (get_queue now t) ≡ count_where (λ r. lte_option r.retry_at now) t)
  unfolding get_queue order_by_retry_at select count_where
  get_queue-IsOrdered now [] = (tt, tt, refl)
  get_queue-IsOrdered now (r ∷ t) =
      let (due, ordered, size) = get_queue-IsOrdered now t in
      elim (Bool-cases (lte_option r.retry_at now)) [
        | inl e ↦ rw e (
          All-insert (IsDue now) r (get_queue now t) e due,
          insert-IsOrdered now r (get_queue now t) e ordered,
          length-insert r (get_queue now t) ∙ ap suc size,
        )
        | inr e ↦ rw e (due, ordered, size)
      ]
