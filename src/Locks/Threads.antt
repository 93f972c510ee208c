-- ===== src/Locks/Threads.antt =====
-- Sums over the threads of a process.
use archive_box.Base.{ℕ, zero, suc, ◌+◌, ◌≤◌, ◌<◌, ◌≡◌, refl, arith}
use native.Mathlib.Decide.{dec_lt}
use archive_box.Locks.{Thread, update}

module _ (w : Thread → ℕ) where
  pub total : ℕ → (ℕ → Thread) → ℕ
  total zero th = 0
  total (suc n) th = w (th n) + total n th

  total-above :
      (n i : ℕ) (x : Thread) (th : ℕ → Thread) → n ≤ i → total n (update i x th) ≡ total n th
  unfolding total
  total-above zero i x th h = refl
  total-above (suc n) i x th h = ground (arith, total-above n i x th)

  -- what a change of one thread does to the sum
  pub total-update :
      (n i : ℕ) (x : Thread) (th : ℕ → Thread)
      → i < n
      → total n (update i x th) + w (th i) ≡ total n th + w x
  unfolding total
  total-update zero i x th h = elim h [ ]
  total-update (suc n) i x th h = elim (dec_lt i n) [
    | yes inner ↦ ground (arith, total-update n i x th inner)
    | no last ↦ ground (arith, total-above n i x th)
  ]

  pub total-le : (n i : ℕ) (th : ℕ → Thread) → i < n → w (th i) ≤ total n th
  unfolding total
  total-le zero i th h = elim h [ ]
  total-le (suc n) i th h = elim (dec_lt i n) [
    | yes inner ↦ omega (arith, total-le n i th inner)
    | no last ↦ ground arith
  ]

  pub total-none : (n : ℕ) (th : ℕ → Thread) → ((i : ℕ) → w (th i) ≡ 0) → total n th ≡ 0
  unfolding total
  total-none zero th h = refl
  total-none (suc n) th h = omega (arith, h n, total-none n th h)
