-- ===== src/Admission/Slots.antt =====
-- The slots that archivebox/services/resource_admission.py admits fit what is available.
use native.Mathlib.Nat.{mul-div-le, mul-le-mul_right, add-mul}
use archive_box.Base.{
  ℕ, zero, suc, ◌+◌, ◌-◌, ◌*◌, ◌/◌, ◌≡◌, ◌≤◌, ◌<◌, ◌⊎◌, inl, inr, refl, arith, min,
}
use archive_box.Admission.{slots_for_headroom}

-- what holds of a number of slots that is granted while `active` snapshots run
abbrev pub Fits : ℕ → ℕ → ℕ → ℕ → Type 0
Fits active cost available slots =
    (slots ≡ 0) ⊎ (((active ≡ 0) × (slots ≡ 1)) ⊎ ((active + slots) * cost ≤ available))

quotient-Fits :
    (active cost available slots : ℕ)
    → 0 < cost
    → slots ≤ (available - active * cost) / cost
    → Fits active cost available slots
quotient-Fits active cost available zero paid below = inl refl
quotient-Fits active cost available (suc s) paid below =
    let room = available - active * cost in
    let total : cost * (room / cost) ≤ room = mul-div-le room cost in
    let granted : suc s * cost ≤ room / cost * cost = mul-le-mul_right cost below in
    let one : 1 * cost ≤ suc s * cost = mul-le-mul_right cost (omega arith) in
    inr (inr (rw (add-mul active (suc s) cost) (omega arith)))

-- With a measured cost, the slots that are granted are none, or the single slot of an idle runner,
-- or as many as fit: what runs and what starts, at that cost each, is within the available memory.
pub slots_for_headroom-Fits :
    (configured active cost available : ℕ)
    → 0 < cost
    → Fits active cost available (slots_for_headroom configured active cost available)
unfolding slots_for_headroom
slots_for_headroom-Fits configured active cost available paid =
    let q = (available - active * cost) / cost in
    ground (arith, quotient-Fits active cost available (min (configured - active) q) paid)

-- within the configured number, and one at least for an idle runner
abbrev pub InBounds : ℕ → ℕ → ℕ → Type 0
InBounds configured active slots =
    (slots ≤ configured - active) × ((0 < active) ⊎ ((configured ≡ 0) ⊎ (0 < slots)))

-- The slots never exceed the room under the configured number, and an idle runner gets at least one
-- of a configured number, however little memory is available.
pub slots_for_headroom-bounds :
    (configured active cost available : ℕ)
    → InBounds configured active (slots_for_headroom configured active cost available)
unfolding slots_for_headroom
slots_for_headroom-bounds configured active cost available = ground arith
