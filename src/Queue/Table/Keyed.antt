-- ===== src/Queue/Table/Keyed.antt =====
-- `filter(pk=k, ...).update(...)` seen through `filter(pk=j).first()`.
use archive_box.Base.{
  ℕ, ◌≡◌, ◌≢◌, refl, Bool, ◌&&◌, some, List, [], ◌∷◌, arith, All, All-map, none, ==_iff, Bool-cases,
  inl, inr, ap, ◌==◌,
}
use mathlib.Core.Path.{subst}
use archive_box.Queue.Table.{
  Row, KeepsKey, IsKeyed, find, update_where, count_where, change_if, find-update_where, pk-find,
}

module _ {E : Type 0} where
  pub find-update_where_ne :
      (k j : ℕ) (c : Row E → Bool) (f : Row E → Row E) (t : List (Row E))
      → KeepsKey f
      → j ≢ k
      → find j (update_where (λ r. r.pk == k && c r) f t) ≡ find j t
  unfolding find update_where
  find-update_where_ne k j c f [] keep ne = refl
  find-update_where_ne k j c f (r ∷ t) keep ne =
      ground (arith, keep r, find-update_where_ne k j c f t keep ne)

  pub find-update_where_self :
      (k : ℕ) (c : Row E → Bool) (f : Row E → Row E) (t : List (Row E)) (r : Row E)
      → KeepsKey f
      → find k t ≡ some r
      → find k (update_where (λ r. r.pk == k && c r) f t) ≡ some (change_if c f r)
  find-update_where_self k c f t r keep h =
      rw (find-update_where k (λ r. r.pk == k && c r) f t keep)
        (rw h (ground (arith, pk-find k t r h)))

  -- an update that matches no row writes nothing
  pub update_where_miss :
      (p : Row E → Bool) (f : Row E → Row E) (t : List (Row E))
      → count_where p t ≡ 0
      → update_where p f t ≡ t
  unfolding count_where update_where
  update_where_miss p f [] h = refl
  update_where_miss p f (r ∷ t) h = ground (arith, update_where_miss p f t)

  pub All-find {κ} :
      (Q : Row E → Type κ) (k : ℕ) (t : List (Row E)) (r : Row E)
      → All Q t
      → find k t ≡ some r
      → Q r
  unfolding find
  All-find Q k [] r h found = cc
  All-find Q k (x ∷ t) r h found = elim (Bool-cases (x.pk == k)) [
    | inl here ↦ subst Q (ground (arith, here)) h.0
    | inr later ↦ All-find Q k t r h.1 (ground (arith, later))
  ]

  -- a keyed table finds each of its rows
  find-IsKeyed_cons :
      (x : Row E) (t : List (Row E)) (r : Row E)
      → find x.pk t ≡ none
      → find r.pk t ≡ some r
      → find r.pk (x ∷ t) ≡ some r
  unfolding find
  find-IsKeyed_cons x t r absent found = elim (Bool-cases (x.pk == r.pk)) [
    | inl same ↦ absurd (cc (absent, found, ap (λ k. find k t) ((==_iff x.pk r.pk).0 same)))
    | inr other ↦ rw other found
  ]

  pub find-IsKeyed : (t : List (Row E)) → IsKeyed t → All (λ r. find r.pk t ≡ some r) t
  find-IsKeyed [] h = tt
  find-IsKeyed (x ∷ t) h = (
    unfold find in ground arith,
    All-map (λ r. find r.pk t ≡ some r) (λ r. find r.pk (x ∷ t) ≡ some r) t
        (λ r found. find-IsKeyed_cons x t r h.0 found) (find-IsKeyed t h.1),
  )
