-- ===== src/Queue/Update.antt =====
-- What the guarded updates of workers/models.py, `safe_update` and `update_and_requeue`, do to the
-- table.
use archive_box.Base.{
  ℕ, ◌≡◌, ◌≢◌, refl, Bool, false, some, List, arith, eq_option, if◌then◌else◌, eq_option_iff,
}
use archive_box.Queue.Table.{
  Row, KeepsKey, IsKeyed, find, change_if, count_where-key, update_where-IsKeyed,
}
use archive_box.Queue.Table.Keyed.{find-update_where_ne, find-update_where_self, update_where_miss}
use archive_box.Queue.{Changes, Outcome, write, safe_update, update_and_requeue}

module _ {E : Type 0} where
  pub write-KeepsKey : (now : ℕ) (c : Changes E) → KeepsKey (write now c)
  write-KeepsKey now c r = refl

  -- a guarded update, and the row after it
  pub record IsGuardedUpdate (refresh : Bool) (self : Row E) (t : List (Row E)) (guard : Bool)
      (after : Row E) (o : Outcome E) : Type 0 where
    pub reported : o.done ≡ guard
    pub written : find self.pk o.rows ≡ some after
    pub others : (j : ℕ) → j ≢ self.pk → find j o.rows ≡ find j t
    pub missed : guard ≡ false → o.rows ≡ t
    pub rows_keyed : IsKeyed o.rows
    pub object : o.self ≡ (if refresh then after else self)

  -- A guarded update, in a table with unique keys that has the row `r` at the object's key: it
  -- reports whether `r` meets the guard, writes that row if it does and leaves the table if it does
  -- not, leaves every other key, keeps the keys unique, and reloads the object if that is asked for.
  pub safe_update_lem :
      (now : ℕ) (c : Changes E) (refresh : Bool) (guard : Row E → Bool) (self r : Row E)
      (t : List (Row E))
      → IsKeyed t
      → find self.pk t ≡ some r
      → IsGuardedUpdate refresh self t
          (guard r)
          (change_if guard (write now c) r)
          (safe_update now c refresh guard self t)
  unfolding safe_update
  safe_update_lem now c refresh guard self r t keyed found = record {
    reported = rw (count_where-key self.pk guard t keyed) (rw found (ground arith));
    written = find-update_where_self self.pk guard (write now c) t r (write-KeepsKey now c) found;
    others = λ j ne. find-update_where_ne self.pk j guard (write now c) t (write-KeepsKey now c) ne;
    missed = λ miss.
        update_where_miss _ (write now c) t
          (rw (count_where-key self.pk guard t keyed) (rw found (ground arith)));
    rows_keyed = update_where-IsKeyed _ _ t (write-KeepsKey now c) keyed;
    object =
        rw (find-update_where_self self.pk guard (write now c) t r (write-KeepsKey now c) found);
  }

  -- A requeue on an object whose `retry_at` is no longer that of its row, in a table with unique keys,
  -- since the lease was renewed or taken over, is refused and writes nothing.
  pub update_and_requeue_stale :
      (now : ℕ) (c : Changes E) (refresh : Bool) (self r : Row E) (t : List (Row E))
      → IsKeyed t
      → find self.pk t ≡ some r
      → r.retry_at ≢ self.retry_at
      → let o = update_and_requeue now c refresh self t in (o.done ≡ false) × (o.rows ≡ t)
  unfolding update_and_requeue
  update_and_requeue_stale now c refresh self r t keyed found stale =
      let g =
        safe_update_lem now c refresh (λ x. eq_option x.retry_at self.retry_at) self r t keyed
          found in
      let miss : eq_option r.retry_at self.retry_at ≡ false =
        ground (arith, eq_option_iff r.retry_at self.retry_at) in
      (rw g.reported miss, g.missed miss)
