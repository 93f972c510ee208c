-- ===== src/Admission.antt =====
-- archivebox/services/resource_admission.py: how many more snapshots may run, and when the memory
-- is under pressure. What the code reads from the system is an argument. `none` is a read that
-- raised, or text that is no number.
pub mod Swap
pub mod Slots
pub mod Pressure
use archive_box.Base.{
  ℕ, ◌+◌, ◌-◌, ◌*◌, ◌/◌, ◌%◌, Bool, true, false, ◌&&◌, ◌||◌, not, Option, none, some, List, [], ◌∷◌,
  ltb, leb, ◌==◌, if◌then◌else◌, min, max, or_else,
}
use archive_box.Admission.Swap.{Reading, failed, unlimited, limit}

-- `slots_for_headroom`
unfoldable pub slots_for_headroom : ℕ → ℕ → ℕ → ℕ → ℕ
slots_for_headroom configured active observed_cost available =
    let slots = configured - active in
    let unpromised = available - active * observed_cost in
    let slots = if ltb 0 observed_cost then min slots (unpromised / observed_cost) else slots in
    if active == 0 && not (configured == 0) then max 1 slots else slots

-- `headroom` is what `memory_headroom` returns, the usage and what is available
unfoldable pub additional_snapshot_slots : ℕ → ℕ → Option ℕ → Option (ℕ × ℕ) → ℕ
unfolding slots_for_headroom
additional_snapshot_slots configured active observed_cost headroom =
    let cost = or_else observed_cost 0 in
    if cost == 0
    then (if active == 0 && ltb 0 configured then 1 else 0)
    else slots_for_headroom configured active cost
        (elim headroom [ none ↦ 0 | some (used, available) ↦ available ])

-- `cpu.max` of a cgroup: a quota, unless it is `max`, and a period
pub record CpuMax : Type 0 where
  pub quota : Option ℕ
  pub period : ℕ

abbrev ceil_div : ℕ → ℕ → ℕ
ceil_div a b = if a % b == 0 then a / b else a / b + 1

abbrev cpu_bound : CpuMax → ℕ → ℕ
cpu_bound m cpus = elim m.quota [
  | none ↦ cpus
  | some q ↦ if m.period == 0 then cpus else min cpus (max 1 (ceil_div q m.period))
]

abbrev pub cpus_within : List (Option CpuMax) → ℕ → ℕ
cpus_within [] cpus = cpus
cpus_within (none ∷ groups) cpus = cpus_within groups cpus
cpus_within (some m ∷ groups) cpus = cpus_within groups (cpu_bound m cpus)

-- `cpus` is the size of the affinity mask, or `os.cpu_count() or 1`
unfoldable pub snapshot_limit : ℕ → ℕ → List (Option CpuMax) → ℕ
snapshot_limit configured cpus groups = max 1 (min configured (cpus_within groups cpus))

-- The files of one cgroup that the headroom is read from.
pub record MemoryFiles : Type 0 where
  pub memory_max : Reading
  pub current : Option ℕ
  pub swap_max : Reading
  pub swap_current : Option ℕ

-- The usage of the first cgroup with a limit, and what is available.
pub record Headroom : Type 0 where
  pub used_bytes : Option ℕ
  pub available : ℕ

-- the room in swap, or a read that raised
abbrev swap_room : ℕ → Reading → ℕ → Option ℕ
swap_room host failed current = none
swap_room host unlimited current = some host
swap_room host (limit n) current = some (min host (n - current))

abbrev within : ℕ → MemoryFiles → Headroom → Headroom
within host files h = elim files.memory_max [
  | failed ↦ h
  | unlimited ↦ h
  | limit most ↦ elim files.current [
    | none ↦ h
    | some current ↦ elim files.swap_current [
      | none ↦ h
      | some swap_current ↦ elim (swap_room host files.swap_max swap_current) [
        | none ↦ h
        | some room ↦ record {
          used_bytes = some (or_else h.used_bytes (current + swap_current));
          available = min h.available ((most - current) + room);
        }
      ]
    ]
  ]
]

abbrev pub within_all : ℕ → List MemoryFiles → Headroom → Headroom
within_all host [] h = h
within_all host (files ∷ groups) h = within_all host groups (within host files h)

abbrev sum_resident : List (Option ℕ) → ℕ
sum_resident [] = 0
sum_resident (none ∷ rest) = sum_resident rest
sum_resident (some n ∷ rest) = n + sum_resident rest

-- `processes` is the resident memory of the runner's tree of processes, where it can be listed.
-- `host_available` and `host_swap_free` are those of the host.
unfoldable pub memory_headroom :
    ℕ → ℕ → List MemoryFiles → Option (List (Option ℕ)) → Option (ℕ × ℕ)
memory_headroom host_available host_swap_free groups processes =
    let h =
      within_all host_swap_free groups (record { used_bytes = none; available = host_available }) in
    elim h.used_bytes [
      | some used ↦ some (used, h.available)
      | none ↦ elim processes [ none ↦ none | some sizes ↦ some (sum_resident sizes, h.available) ]
    ]
