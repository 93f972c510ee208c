-- ===== src/Queue/Table.antt =====
-- Rows of a queue table (workers/models.py), and the ORM calls of the queue protocol over them:
-- `filter(...).update(...)`, `filter(...).count()` and `filter(pk=...).first()`.
pub mod Keyed
use mathlib.Core.Option
use archive_box.Base.{
  ℕ, suc, ◌≡◌, refl, ◌↔◌, Bool, true, false, ◌&&◌, Option, none, some, List, [], ◌∷◌, arith, ◌==◌,
  if◌then◌else◌,
}

-- `DefaultStatusChoices`, the extra state of `Snapshot`, and the final state of `Binary`.
pub data Status : Type 0 where
  queued started paused sealed deleting installed : Status

abbrev pub code : Status → ℕ
code queued = 0
code started = 1
code paused = 2
code sealed = 3
code deleting = 4
code installed = 5

abbrev pub eq_status : Status → Status → Bool
eq_status a b = code a == code b

pub eq_status_iff : (a b : Status) → (eq_status a b ≡ true) ↔ (a ≡ b)
eq_status_iff a b = ground arith

-- The columns that `ModelWithQueue` owns, beside those of the concrete model.
pub record Row (E : Type 0) : Type 0 where
  pub pk : ℕ
  pub status : Status
  pub retry_at : Option ℕ
  pub modified_at : ℕ
  pub columns : E

module _ {E : Type 0} where
  -- `filter(p).update(f)`: the table after it, and the number of rows that it matched
  unfoldable pub update_where : (Row E → Bool) → (Row E → Row E) → List (Row E) → List (Row E)
  update_where p f [] = []
  update_where p f (r ∷ t) = (if p r then f r else r) ∷ update_where p f t

  unfoldable pub count_where : (Row E → Bool) → List (Row E) → ℕ
  count_where p [] = 0
  count_where p (r ∷ t) = let rest = count_where p t in if p r then suc rest else rest

  -- `filter(pk=k).first()`
  unfoldable pub find : ℕ → List (Row E) → Option (Row E)
  find k [] = none
  find k (r ∷ t) = if r.pk == k then some r else find k t

  -- the status of the row with key `k`
  abbrev pub status_at : ℕ → List (Row E) → Option Status
  status_at k t = Option.map (λ (r : Row E). r.status) (find k t)

  abbrev pub KeepsKey : (Row E → Row E) → Type 0
  KeepsKey f = (r : Row E) → (f r).pk ≡ r.pk

  -- the primary key is unique
  abbrev pub IsKeyed : List (Row E) → Type 0
  IsKeyed [] = Unit
  IsKeyed (r ∷ t) = (find r.pk t ≡ none) × IsKeyed t

  pub pk-find : (k : ℕ) (t : List (Row E)) (r : Row E) → find k t ≡ some r → r.pk ≡ k
  unfolding find
  pk-find k [] r h = cc
  pk-find k (x ∷ t) r h = ground (arith, pk-find k t r)

  abbrev pub change_if : (Row E → Bool) → (Row E → Row E) → Row E → Row E
  change_if p f r = if p r then f r else r

  pub find-update_where :
      (k : ℕ) (p : Row E → Bool) (f : Row E → Row E) (t : List (Row E))
      → KeepsKey f
      → find k (update_where p f t) ≡ Option.map (change_if p f) (find k t)
  unfolding find update_where
  find-update_where k p f [] keep = refl
  find-update_where k p f (r ∷ t) keep = ground (arith, keep r, find-update_where k p f t keep)

  -- a filter that no row meets
  pub count_where-zero :
      (k : ℕ) (c : Row E → Bool) (t : List (Row E))
      → find k t ≡ none
      → count_where (λ r. r.pk == k && c r) t ≡ 0
  unfolding find count_where
  count_where-zero k c [] h = refl
  count_where-zero k c (r ∷ t) h = ground (arith, count_where-zero k c t)

  abbrev pub hits : (Row E → Bool) → Option (Row E) → Bool
  hits c none = false
  hits c (some r) = c r

  -- with a unique key, `filter(pk=k, ...)` matches one row or none
  pub count_where-key :
      (k : ℕ) (c : Row E → Bool) (t : List (Row E))
      → IsKeyed t
      → count_where (λ r. r.pk == k && c r) t ≡ (if hits c (find k t) then 1 else 0)
  unfolding find count_where
  count_where-key k c [] u = refl
  count_where-key k c (r ∷ t) u =
      ground (arith, u.0, count_where-zero k c t, count_where-key k c t u.1)

  find-update_where-none :
      (k : ℕ) (p : Row E → Bool) (f : Row E → Row E) (t : List (Row E))
      → KeepsKey f
      → find k t ≡ none
      → find k (update_where p f t) ≡ none
  find-update_where-none k p f t keep h = rw (find-update_where k p f t keep) (rw h)

  pub update_where-IsKeyed :
      (p : Row E → Bool) (f : Row E → Row E) (t : List (Row E))
      → KeepsKey f
      → IsKeyed t
      → IsKeyed (update_where p f t)
  unfolding update_where
  update_where-IsKeyed p f [] keep u = tt
  update_where-IsKeyed p f (r ∷ t) keep u =
      (rw keep-if (find-update_where-none r.pk p f t keep u.0), update_where-IsKeyed p f t keep u.1)
    where
      keep-if : (if p r then f r else r).pk ≡ r.pk
      keep-if = ground (arith, keep r)

  -- A status that an update writes over no row that has it stays.
  pub status_at-update_where :
      (s : Status) (k : ℕ) (p : Row E → Bool) (f : Row E → Row E) (t : List (Row E))
      → KeepsKey f
      → ((r : Row E) → r.status ≡ s → (change_if p f r).status ≡ s)
      → status_at k t ≡ some s
      → status_at k (update_where p f t) ≡ some s
  unfolding find update_where
  status_at-update_where s k p f [] keep stays h = h
  status_at-update_where s k p f (r ∷ t) keep stays h =
      ground (arith, keep r, stays r, status_at-update_where s k p f t keep stays)
