-- ===== src/Admission/Pressure.antt =====
-- `ResourceAdmission.observe_memory_stalls` and `memory_pressure` of
-- archivebox/services/resource_admission.py. Instants and totals are microseconds, the rolling
-- average is in hundredths of a percent, as the kernel prints it, and the percentage is compared
-- as an exact fraction.
use archive_box.Base.{
  ℕ, ◌+◌, ◌-◌, ◌*◌, Bool, true, false, ◌&&◌, ◌||◌, Option, none, some, List, [], ◌∷◌, ◌++◌, ◌↔◌,
  ◌≡◌, ◌≤◌, ◌<◌, ltb, leb, ◌==◌, arith, if◌then◌else◌,
}
use archive_box.Admission.Swap.{Reading, failed, unlimited, limit}

abbrev pub recheck_microseconds : ℕ
recheck_microseconds = 2000000

abbrev pub stall_hundredths : ℕ
stall_hundredths = 1000

-- The last total of a source, and when it was read.
pub record Stall : Type 0 where
  pub source : ℕ
  pub total : ℕ
  pub sampled_at : ℕ

abbrev pub last_of : ℕ → List Stall → Option Stall
last_of source [] = none
last_of source (s ∷ rest) = if s.source == source then some s else last_of source rest

unfoldable pub observe_memory_stalls : ℕ → ℕ → ℕ → ℕ → List Stall → Bool × List Stall
observe_memory_stalls source total avg10 sampled_at stalls =
    let high = leb stall_hundredths avg10 in
    (
      elim (last_of source stalls) [
        | none ↦ high
        | some previous ↦
            if leb sampled_at previous.sampled_at || ltb total previous.total
            then false
            else high
              && leb (10 * (sampled_at - previous.sampled_at)) (100 * (total - previous.total))
      ],
      record { source = source; total = total; sampled_at = sampled_at } ∷ stalls,
    )

pub data Reason : Type 0 where
  high_reached max_reached memory_stalls : Reason

-- The files of one cgroup that the pressure is read from.
pub record LimitFiles : Type 0 where
  pub current : Option ℕ
  pub memory_high : Reading
  pub memory_max : Reading

-- the line `full` of a pressure file, its average and its total
pub record PressureFile : Type 0 where
  pub path : ℕ
  pub full : Option (ℕ × ℕ)

abbrev pub is_reached : ℕ → Reading → Bool
is_reached current failed = false
is_reached current unlimited = false
is_reached current (limit n) = leb n current

abbrev mark : Bool → Reason → List Reason
mark b r = if b then r ∷ [] else []

-- a file that cannot be read ends the checks of its cgroup
abbrev limit_reasons : LimitFiles → List Reason
limit_reasons files = elim files.current [
  | none ↦ []
  | some current ↦ elim files.memory_high [
    | failed ↦ []
    | _ ↦
        mark (is_reached current files.memory_high) high_reached
        ++ mark (is_reached current files.memory_max) max_reached
  ]
]

abbrev pub all_limit_reasons : List LimitFiles → List Reason
all_limit_reasons [] = []
all_limit_reasons (files ∷ groups) = limit_reasons files ++ all_limit_reasons groups

stall_reasons : ℕ → List PressureFile → List Stall → List Reason × List Stall
unfolding observe_memory_stalls
stall_reasons now [] stalls = ([], stalls)
stall_reasons now (file ∷ files) stalls = elim file.full [
  | none ↦ stall_reasons now files stalls
  | some (avg10, total) ↦
      let (stalled, next) = observe_memory_stalls file.path total avg10 now stalls in
      let (reasons, last) = stall_reasons now files next in
      (mark stalled memory_stalls ++ reasons, last)
]

abbrev pub reason_code : Reason → ℕ
reason_code high_reached = 0
reason_code max_reached = 1
reason_code memory_stalls = 2

-- `dict.fromkeys`: the first of each
abbrev pub drop_reason : Reason → List Reason → List Reason
drop_reason r [] = []
drop_reason r (x ∷ xs) =
    if reason_code x == reason_code r then drop_reason r xs else x ∷ drop_reason r xs

abbrev pub first_of_each : List Reason → List Reason
first_of_each [] = []
first_of_each (r ∷ rs) = r ∷ drop_reason r (first_of_each rs)

-- `checked_at` is `none` before the first check, and no reason is `None`.
pub record Admission : Type 0 where
  pub stalls : List Stall
  pub checked_at : Option ℕ
  pub reason : List Reason

abbrev pub is_recent : ℕ → Option ℕ → Bool
is_recent now none = false
is_recent now (some at) = ltb (now - at) recheck_microseconds

unfoldable pub memory_pressure :
    ℕ → List LimitFiles → List PressureFile → Admission → List Reason × Admission
unfolding stall_reasons
memory_pressure now groups files self =
    let (reasons, stalls) = stall_reasons now files self.stalls in
    let reason = first_of_each (all_limit_reasons groups ++ reasons) in
    if is_recent now self.checked_at
    then (self.reason, self)
    else (reason, record { stalls = stalls; checked_at = some now; reason = reason })

-- what the source lost since its last sample is a tenth of the time or more
abbrev pub IsStalled : ℕ → ℕ → Stall → Type 0
IsStalled total sampled_at previous =
    (previous.sampled_at < sampled_at)
    × (previous.total ≤ total)
    × (10 * (sampled_at - previous.sampled_at) ≤ 100 * (total - previous.total))

-- From its second sample on, a source counts as stalled exactly if both its rolling average and what it lost since
-- the sample before are at least ten percent, and time has passed and its total did not go back; and the sample
-- is the one that the next is compared with.
pub observe_memory_stalls-both :
    (source total avg10 sampled_at : ℕ) (stalls : List Stall) (previous : Stall)
    → last_of source stalls ≡ some previous
    → let (stalled, after) = observe_memory_stalls source total avg10 sampled_at stalls in
      ((stalled ≡ true) ↔ ((stall_hundredths ≤ avg10) × IsStalled total sampled_at previous))
      × (last_of source after
          ≡ some (record { source = source; total = total; sampled_at = sampled_at }))
unfolding observe_memory_stalls
observe_memory_stalls-both source total avg10 sampled_at stalls previous seen =
    rw seen (ground arith)

-- A check within two seconds of one that read the files gives the answer of that one, reads no
-- file, and leaves the state.
pub memory_pressure-cached :
    (now later : ℕ) (groups next_groups : List LimitFiles) (files next_files : List PressureFile)
    (self : Admission)
    → is_recent now self.checked_at ≡ false
    → later < now + recheck_microseconds
    → let (reason, after) = memory_pressure now groups files self in
      memory_pressure later next_groups next_files after ≡ (reason, after)
unfolding memory_pressure
memory_pressure-cached now later groups next_groups files next_files self due soon =
    rw due (ground arith)
