-- ===== src/Retention.antt =====
-- `ModelWithDeleteAfter.delete_expired` of archivebox/base_models/models.py: the rows whose time has
-- come are deleted in batches. No other writer comes between its queries, and a deletion that raises
-- is left out.
pub mod Batches
use archive_box.Base.{
  ℕ, ◌+◌, Bool, true, false, ◌&&◌, ◌||◌, not, Option, none, some, List, [], ◌∷◌, ltb, leb, ◌==◌,
  if◌then◌else◌, lte_option, or_else, is_none, select, take, any, length,
}
use archive_box.Queue.Table.{Status}
use archive_box.Queue.{is_in}

-- The columns that the sweep reads.
pub record Expiring : Type 0 where
  pub pk : ℕ
  pub status : Status
  pub delete_at : Option ℕ

-- `order_by("delete_at", "pk")`, on rows that have an instant
abbrev pub comes_before : Expiring → Expiring → Bool
comes_before r x =
    ltb (or_else r.delete_at 0) (or_else x.delete_at 0)
    || ((or_else r.delete_at 0 == or_else x.delete_at 0) && leb r.pk x.pk)

insert_row : Expiring → List Expiring → List Expiring
insert_row r [] = r ∷ []
insert_row r (x ∷ xs) =
    let rest = insert_row r xs in if comes_before r x then r ∷ x ∷ xs else x ∷ rest

unfoldable pub in_order : List Expiring → List Expiring
unfolding insert_row
in_order [] = []
in_order (r ∷ rs) = insert_row r (in_order rs)

abbrev pub is_due : ℕ → Expiring → Bool
is_due now r = lte_option r.delete_at now

-- the update of a candidate without an instant, for the instant of its configuration
abbrev with_instant : ℕ → ℕ → Expiring → Expiring
with_instant pk at r =
    if r.pk == pk && is_none r.delete_at then record r { delete_at = some at } else r

map_rows : (Expiring → Expiring) → List Expiring → List Expiring
map_rows f [] = []
map_rows f (r ∷ rs) = f r ∷ map_rows f rs

-- The candidates in their order, each with the instant of its configuration, if it has one.
unfoldable pub backfill : List (ℕ × Option ℕ) → List Expiring → List Expiring
unfolding map_rows
backfill [] t = t
backfill ((pk, none) ∷ rest) t = backfill rest t
backfill ((pk, some at) ∷ rest) t = backfill rest (map_rows (with_instant pk at) t)

-- `delete_after_final_statuses`: no test where it is empty
abbrev pub is_final : List Status → Expiring → Bool
is_final [] r = true
is_final (s ∷ ss) r = is_in r.status (s ∷ ss)

-- The rows that are deleted, their number, and the rows that are left.
pub record Sweep : Type 0 where
  pub deleted : List Expiring
  pub count : ℕ
  pub rows : List Expiring

unfoldable pub due_batch : ℕ → ℕ → List Expiring → List Expiring
unfolding in_order select
due_batch now batch_size t = take batch_size (in_order (select (is_due now) t))

unfoldable pub delete_expired :
    ℕ → List Status → ℕ → Bool → List (ℕ × Option ℕ) → List Expiring → Sweep
unfolding backfill due_batch select any
delete_expired now final_statuses batch_size backfill_missing candidates t =
    let filled = if backfill_missing then backfill (take batch_size candidates) t else t in
    let expired = select (is_final final_statuses) (due_batch now batch_size filled) in
    record {
      deleted = expired;
      count = length expired;
      rows = select (λ r. not (any (λ e. e.pk == r.pk) expired)) filled;
    }
