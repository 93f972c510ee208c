-- ===== src/Queue.antt =====
-- `ModelWithQueue` of archivebox/workers/models.py: the durable queue fields of a work row and the
-- guarded updates that move them. A method takes the object that it is called on as it was loaded,
-- possibly stale, and the table; instants are microseconds since 1970, and each call of
-- `timezone.now()` in a method is an argument of its own.
pub mod Table
pub mod Update
pub mod Claims
pub mod Pauses
pub mod Sealed
pub mod Order
use archive_box.Base.{
  ℕ, ◌+◌, ◌*◌, Bool, true, false, ◌&&◌, ◌||◌, Option, none, some, List, [], ◌∷◌, ◌==◌,
  if◌then◌else◌, eq_option, lte_option, is_none, or_else, select, any, map,
}
use Table.{
  Status, queued, started, paused, sealed, installed, eq_status, Row, update_where, count_where,
  find,
}

-- The instant of `RETRY_AT_MAX`, and `timedelta(seconds=n)`.
abbrev pub retry_at_max : ℕ
retry_at_max = 253370764800000000

abbrev pub seconds : ℕ → ℕ
seconds n = n * 1000000

abbrev pub active_state_lease_seconds : ℕ
active_state_lease_seconds = 60

-- The class attributes that the mixin reads: `getattr(StatusChoices, "PAUSED", None)` and
-- `FINAL_STATES`.
pub record QueueClass : Type 0 where
  pub paused_state : Option Status
  pub final_states : List Status

abbrev pub crawl_class : QueueClass
crawl_class = record { paused_state = some paused; final_states = sealed ∷ [] }

abbrev pub binary_class : QueueClass
binary_class = record { paused_state = none; final_states = installed ∷ [] }

-- `status in states`
abbrev pub is_in : Status → List Status → Bool
is_in s [] = false
is_in s (x ∷ xs) = eq_status s x || is_in s xs

-- The `update_fields` of an update. `none` is a field that is not given.
pub record Changes (E : Type 0) : Type 0 where
  pub status : Option Status
  pub retry_at : Option (Option ℕ)
  pub modified_at : Option ℕ
  pub columns : E → E

module _ {E : Type 0} where
  abbrev pub no_changes : Changes E
  no_changes = record { status = none; retry_at = none; modified_at = none; columns = λ e. e }

  -- a new status with a new `retry_at`
  abbrev pub move_to : Status → Option ℕ → Changes E
  move_to s at = record no_changes { status = some s; retry_at = some at }

  -- the columns that an update writes, `modified_at` with its default
  abbrev pub write : ℕ → Changes E → Row E → Row E
  write now c r = record r {
    status = or_else c.status r.status;
    retry_at = or_else c.retry_at r.retry_at;
    modified_at = or_else c.modified_at now;
    columns = c.columns r.columns;
  }

-- What a method returns, the object after it, and the table after it.
pub record Outcome (E : Type 0) : Type 0 where
  pub done : Bool
  pub self : Row E
  pub rows : List (Row E)

module _ {E : Type 0} where
  abbrev pub unchanged : Row E → List (Row E) → Outcome E
  unchanged self t = record { done = false; self = self; rows = t }

  -- a row that is gone leaves the object as it is
  abbrev pub refresh_from_db : Row E → List (Row E) → Row E
  refresh_from_db self t = or_else (find self.pk t) self

  unfoldable pub safe_update :
      ℕ → Changes E → Bool → (Row E → Bool) → Row E → List (Row E) → Outcome E
  safe_update now changes refresh extra_filter self t =
      let p = λ (r : Row E). r.pk == self.pk && extra_filter r in
      let rows = update_where p (write now changes) t in
      record {
        done = count_where p t == 1;
        self = if refresh then refresh_from_db self rows else self;
        rows = rows;
      }

  abbrev pub is_paused : QueueClass → Row E → Bool
  is_paused cls self = elim cls.paused_state [ none ↦ false | some p ↦ eq_status self.status p ]

  abbrev pub has_status : Status → Row E → Bool
  has_status s r = eq_status r.status s

  pause_to : Status → ℕ → Bool → Row E → List (Row E) → Outcome E
  pause_to p now save self t =
      let marked = record self { status = p; retry_at = some retry_at_max } in
      if save
      then safe_update now (move_to p (some retry_at_max)) true (has_status self.status) marked t
      else record { done = true; self = marked; rows = t }

  unfoldable pub pause : QueueClass → ℕ → Bool → Row E → List (Row E) → Outcome E
  unfolding pause_to
  pause cls now save self t = elim cls.paused_state [
    | none ↦ unchanged self t
    | some p ↦
        if is_in self.status cls.final_states || eq_status self.status p
        then unchanged self t
        else pause_to p now save self t
  ]

  resume_from : Status → ℕ → ℕ → Bool → Row E → List (Row E) → Outcome E
  resume_from p resume_at now save self t =
      let marked = record self { status = queued; retry_at = some resume_at } in
      if save
      then safe_update now (move_to queued (some resume_at)) true (has_status p) marked t
      else record { done = true; self = marked; rows = t }

  -- `now` is the default of `when`, and `stamp` the instant of the update
  unfoldable pub resume : QueueClass → Option ℕ → ℕ → ℕ → Bool → Row E → List (Row E) → Outcome E
  unfolding resume_from
  resume cls when now stamp save self t = elim cls.paused_state [
    | none ↦ unchanged self t
    | some p ↦
        if eq_status self.status p
        then resume_from p (or_else when now) stamp save self t
        else unchanged self t
  ]

  unfoldable pub update_and_requeue : ℕ → Changes E → Bool → Row E → List (Row E) → Outcome E
  update_and_requeue now changes refresh self t =
      safe_update now changes refresh (λ r. eq_option r.retry_at self.retry_at) self t

  abbrev pub lease : ℕ → ℕ → Row E → Row E
  lease now until r = record r { retry_at = some until; modified_at = now }

  unfoldable pub claim_for_worker : ℕ → ℕ → Row E → List (Row E) → Outcome E
  claim_for_worker now lock_seconds obj t =
      let lock_until = now + seconds lock_seconds in
      let p = λ (r : Row E).
        r.pk == obj.pk && (eq_option r.retry_at obj.retry_at && lte_option r.retry_at now) in
      let won = count_where p t == 1 in
      record {
        done = won;
        self = if won then lease now lock_until obj else obj;
        rows = update_where p (λ r. record r { retry_at = some lock_until; modified_at = now }) t;
      }

  unfoldable pub claim_processing_lock : QueueClass → ℕ → ℕ → Row E → List (Row E) → Outcome E
  claim_processing_lock cls now lock_seconds self t =
      if is_in self.status cls.final_states || is_none self.retry_at
      then unchanged self t
      else claim_for_worker now lock_seconds self t

  -- `order_by("retry_at")`
  insert_by_retry_at : Row E → List (Row E) → List (Row E)
  insert_by_retry_at r [] = r ∷ []
  insert_by_retry_at r (x ∷ xs) =
      let rest = insert_by_retry_at r xs in
      if lte_option r.retry_at (or_else x.retry_at 0) then r ∷ x ∷ xs else x ∷ rest

  order_by_retry_at : List (Row E) → List (Row E)
  unfolding insert_by_retry_at
  order_by_retry_at [] = []
  order_by_retry_at (r ∷ t) = insert_by_retry_at r (order_by_retry_at t)

  unfoldable pub get_queue : ℕ → List (Row E) → List (Row E)
  unfolding order_by_retry_at select
  get_queue now t = order_by_retry_at (select (λ r. lte_option r.retry_at now) t)

  unfoldable pub status_counts : List Status → List (Row E) → List ℕ
  unfolding count_where
  status_counts statuses t = map (λ s. count_where (has_status s) t) statuses
