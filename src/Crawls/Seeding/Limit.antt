-- ===== src/Crawls/Seeding/Limit.antt =====
-- The limit on the snapshots of a crawl, kept by `create_snapshots_from_urls`
-- (archivebox/crawls/models.py).
use archive_box.Base.{
  ℕ, suc, ◌≡◌, ◌≢◌, ◌≤◌, refl, Bool, true, false, Option, none, some, List, [], ◌∷◌, ◌++◌, arith,
  if◌then◌else◌, select, length, max, Bool-cases, Option-cases, inl, inr,
}
use archive_box.Text.{Text, is_empty, strip, splitlines}
use archive_box.Queue.Table.{sealed, eq_status}
use archive_box.Db.{Crawl, Snapshot, Db, is_child}
use archive_box.Crawls.Limits.{
  children, has_remaining_snapshot_capacity, remaining_snapshot_capacity,
}
use archive_box.Crawls.Discovery.{Checks, child}
use archive_box.Crawls.Seeding.{
  Line, line_fields, save_row, reseed, after_line, store, Seeded, seed_lines,
  create_snapshots_from_urls,
}

length-save_row :
    (p : Snapshot → Bool) (k : ℕ) (f : Snapshot → Snapshot) (t : List Snapshot)
    → length (select p (save_row k f t)) ≤ suc (length (select p t))
unfolding select save_row
length-save_row p k f [] = omega arith
length-save_row p k f (s ∷ t) = ground (arith, length-save_row p k f t)

length-insert :
    (p : Snapshot → Bool) (s : Snapshot) (t : List Snapshot)
    → length (select p (t ++ s ∷ [])) ≤ suc (length (select p t))
unfolding select
length-insert p s [] = ground arith
length-insert p s (x ∷ t) = ground (arith, length-insert p s t)

-- what one line adds to the snapshots of the crawl
store-children :
    (new_pk : Text → ℕ) (now : ℕ) (self : Crawl) (id : Option ℕ) (url : Text) (depth : ℕ) (db : Db)
    → length (children self (store new_pk now self id url depth db).1)
      ≤ suc (length (children self db))
unfolding store children
store-children new_pk now self none url depth db =
    ground
      (arith, length-insert (is_child self.pk) (child (new_pk url) now depth self url) db.snapshots)
store-children new_pk now self (some k) url depth db = ground (
  arith,
  length-insert (is_child self.pk) (child k now depth self url) db.snapshots,
  length-save_row (is_child self.pk) k (reseed now depth self url) db.snapshots,
)

room :
    (n : ℕ) (self : Crawl) (db : Db)
    → n ≢ 0
    → has_remaining_snapshot_capacity n self db ≡ true
    → suc (length (children self db)) ≤ n
unfolding has_remaining_snapshot_capacity remaining_snapshot_capacity
room n self db some_limit h = ground arith

after_line-all :
    (P : Seeded → Type 0) (is_dropped has_capacity is_saved : Bool) (skip full stored : Seeded)
    → P skip
    → P full
    → (has_capacity ≡ true → P stored)
    → P (after_line is_dropped has_capacity is_saved skip full stored)
unfolding after_line
after_line-all P true has_capacity is_saved skip full stored a b f = a
after_line-all P false false is_saved skip full stored a b f = b
after_line-all P false true true skip full stored a b f = f refl
after_line-all P false true false skip full stored a b f = a

module _ (c : Checks) (decode : Text → Line) (new_pk : Text → ℕ) (only_new : Bool) (n m : ℕ)
    (self : Crawl) (some_limit : n ≢ 0) (within : n ≤ m) where
  -- the loop leaves the crawl within a bound
  abbrev AtMost : Seeded → Type 0
  AtMost r = length (children self r.db) ≤ m

  if-AtMost : (b : Bool) (x y : Seeded) → AtMost x → AtMost y → AtMost (if b then x else y)
  if-AtMost true x y hx hy = hx
  if-AtMost false x y hx hy = hy

  store_within :
      (now : ℕ) (id : Option ℕ) (url : Text) (depth : ℕ) (db : Db)
      → has_remaining_snapshot_capacity n self db ≡ true
      → length (children self (store new_pk now self id url depth db).1) ≤ m
  store_within now id url depth db capacity =
      omega
        (arith, store-children new_pk now self id url depth db, room n self db some_limit capacity)

  seed_lines-AtMost :
      (clock : ℕ → ℕ) (lines : List Text) (db : Db)
      → length (children self db) ≤ m
      → AtMost (seed_lines c decode new_pk only_new n clock self lines db)
  unfolding seed_lines
  seed_lines-AtMost clock [] db h = h
  seed_lines-AtMost clock (line ∷ lines) db h =
      let later = seed_lines-AtMost (λ k. clock (suc k)) lines in
      elim (Option-cases (line_fields c (decode line) line)) [
        | inl bad ↦ rw (bad, seed_lines) (if-AtMost (is_empty (strip line)) _ _ (later db h) h)
        | inr (fields, e) ↦
            rw (e, seed_lines)
              (after_line-all AtMost _ _ _ _ _ _ (later db h) h
                (λ capacity. later _ (store_within _ fields.0 fields.1 fields.2 db capacity)))
      ]

-- With a limit, the lines of a crawl never take it over the limit, whatever they hold and wherever an
-- exception ends the loop: afterwards it has no more snapshots than the limit, or than before.
pub create_snapshots_from_urls-limit :
    (c : Checks) (decode : Text → Line) (new_pk : Text → ℕ) (only_new : Bool) (n : ℕ)
    (clock : ℕ → ℕ) (self : Crawl) (db : Db)
    → n ≢ 0
    → let r = create_snapshots_from_urls c decode new_pk only_new n clock self db in
      length (children self r.db) ≤ max n (length (children self db))
unfolding create_snapshots_from_urls
create_snapshots_from_urls-limit c decode new_pk only_new n clock self db some_limit =
    let m = max n (length (children self db)) in
    elim (Bool-cases (eq_status self.status sealed)) [
      | inl final ↦ rw final (omega arith)
      | inr active ↦ rw active (
          seed_lines-AtMost c decode new_pk only_new n m self some_limit (omega arith) clock
            (splitlines self.columns.urls) db (omega arith))
    ]
