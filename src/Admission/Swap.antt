-- ===== src/Admission/Swap.antt =====
-- The swap that counts as headroom, archivebox/services/resource_admission.py: zram is left out,
-- since it is backed by the memory that it would add to.
use archive_box.Base.{
  ℕ, ◌+◌, ◌-◌, ◌*◌, Bool, false, ◌&&◌, ◌||◌, not, Option, none, some, List, [], ◌∷◌, ◌++◌, ◌==◌,
  if◌then◌else◌, min, any, all,
}
use archive_box.Text.{Text, is_empty, is_in, splitlines, remove_prefix}
use archive_box.Text.Words.{words, int, is_digit}

-- A file that holds a number or `max`.
pub data Reading : Type 0 where
  failed unlimited : Reading
  limit : ℕ → Reading

-- `ZRAM_DEVICE_NAME.fullmatch`
abbrev zram : Text
zram = 122 ∷ 114 ∷ 97 ∷ 109 ∷ []

unfoldable pub is_zram : Text → Bool
unfolding remove_prefix
is_zram s = elim (remove_prefix zram s) [
  | none ↦ false
  | some digits ↦ not (is_empty digits) && all is_digit digits
]

-- `Path(filename).name`, of a path that has no part `.`
name_from : Text → Text → Text
name_from name [] = name
name_from name (c ∷ s) =
    let next = name_from [] s in
    let more = name_from (name ++ c ∷ []) s in
    if c == 47 && not (is_empty s) then next else if c == 47 then name else more

abbrev path_name : Text → Text
unfolding name_from
path_name filename = name_from [] filename

-- `device_id` is the `major:minor` of a block device, where `os.stat` finds one.
unfoldable pub swap_source_identifiers : (Text → Option Text) → Text → List Text
unfolding name_from
swap_source_identifiers device_id filename = elim (device_id filename) [
  | none ↦ path_name filename ∷ []
  | some d ↦ path_name filename ∷ d ∷ []
]

-- The device names of `/sys/block/zram*`, each with the text of its file `dev`.
unfoldable pub zram_swap_identifiers : List (Text × Option Text) → List Text
unfolding is_zram
zram_swap_identifiers [] = []
zram_swap_identifiers ((name, dev) ∷ devices) =
    let rest = zram_swap_identifiers devices in
    if is_zram name then name ∷ elim dev [ none ↦ rest | some d ↦ d ∷ rest ] else rest

abbrev pub is_zram_source : List Text → List Text → Bool
is_zram_source known ids = any (λ x. is_in x known) ids || any is_zram ids

-- the free KiB that a line of `/proc/swaps` adds
free_of_fields : (Text → Option Text) → List Text → List Text → ℕ
unfolding swap_source_identifiers is_in any is_zram int
free_of_fields device_id known (filename ∷ kind ∷ size_kib ∷ used_kib ∷ priority ∷ rest) =
    if is_zram_source known (swap_source_identifiers device_id filename)
    then 0
    else elim (int size_kib) [
      | none ↦ 0
      | some size ↦ elim (int used_kib) [ none ↦ 0 | some used ↦ size - used ]
    ]
free_of_fields device_id known _ = 0

sum_free : (Text → Option Text) → List Text → List Text → ℕ
sum_free device_id known [] = 0
sum_free device_id known (line ∷ lines) =
    free_of_fields device_id known (words line) + sum_free device_id known lines

abbrev drop_header : List Text → List Text
drop_header [] = []
drop_header (header ∷ lines) = lines

unfoldable pub disk_backed_swap_free_bytes : (Text → Option Text) → Text → List Text → ℕ
unfolding sum_free free_of_fields splitlines words
disk_backed_swap_free_bytes device_id swaps known =
    sum_free device_id known (drop_header (splitlines swaps)) * 1024

-- `psutil_free` is `psutil.swap_memory().free`, and `swaps` the text of `/proc/swaps`.
unfoldable pub host_swap_free_bytes :
    Bool → ℕ → (Text → Option Text) → List Text → Option Text → ℕ → ℕ
unfolding disk_backed_swap_free_bytes
host_swap_free_bytes is_linux psutil_free device_id known swaps meminfo_swap_free =
    if not is_linux then psutil_free else elim swaps [
      | none ↦ 0
      | some text ↦ min meminfo_swap_free (disk_backed_swap_free_bytes device_id text known)
    ]
