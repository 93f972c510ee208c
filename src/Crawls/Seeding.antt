-- ===== src/Crawls/Seeding.antt =====
-- `create_snapshots_from_urls` of archivebox/crawls/models.py: the snapshots of the lines of
-- `Crawl.urls`. The arguments are those of Crawls.Discovery; tags, titles and symlinks are left out,
-- and no other writer comes between the look-up of a snapshot and its insertion.
pub mod Limit
use archive_box.Base.{
  ℕ, suc, ◌+◌, ◌≡◌, ◌≢◌, ◌≤◌, refl, ap, ◌∙◌, Bool, true, false, ◌&&◌, ◌||◌, not, Option, none, some,
  List, [], ◌∷◌, ◌++◌, ltb, ◌==◌, arith, if◌then◌else◌, any, select, length, length-append, max,
  is_none, gt_option, Bool-cases, inl, inr,
}
use archive_box.Text.{Text, is_empty, is_in, strip, splitlines, ◌=?◌}
use archive_box.Queue.Table.{queued, sealed, eq_status, find}
use archive_box.Db.{Crawl, Snapshot, Db, is_child}
use archive_box.Crawls.Limits.{
  children, snapshot_url, remaining_snapshot_capacity, has_remaining_snapshot_capacity,
}
use archive_box.Crawls.Discovery.{Checks, is_wanted, child}

-- What `json.loads` of a line gives: an error, an object with the fields that are read, or another
-- value, which has no fields.
pub data Line : Type 0 where
  not_json : Line
  object : Option ℕ → Text → ℕ → Line
  other_json : Line

-- the snapshot id, the URL and the depth of a line, or an `AttributeError`
abbrev pub line_fields : Checks → Line → Text → Option (Option ℕ × Text × ℕ)
line_fields c not_json line = some (none, c.clean (strip line), 0)
line_fields c (object id url depth) line = some (id, c.clean (strip url), depth)
line_fields c other_json line = none

-- `save()` of the loaded row with key `k`
unfoldable pub save_row : ℕ → (Snapshot → Snapshot) → List Snapshot → List Snapshot
save_row k f [] = []
save_row k f (s ∷ t) = let rest = save_row k f t in if s.pk == k then f s ∷ t else s ∷ rest

abbrev pub reseed : ℕ → ℕ → Crawl → Text → Snapshot → Snapshot
reseed now depth self url s = record s {
  status = queued;
  retry_at = some now;
  modified_at = now;
  columns = record s.columns { crawl_id = self.pk; url = url; depth = depth };
}

abbrev with_row : Snapshot → Db → List Snapshot × Db
with_row s db = (s ∷ [], record db { snapshots = db.snapshots ++ s ∷ [] })

abbrev has_url : Crawl → Text → Db → Bool
unfolding any children
has_url self url db = any (λ s. snapshot_url s =? url) (children self db)

-- the snapshots that a line creates, and the tables after it
unfoldable pub store : (Text → ℕ) → ℕ → Crawl → Option ℕ → Text → ℕ → Db → List Snapshot × Db
unfolding find save_row any children
store new_pk now self none url depth db =
    if has_url self url db then ([], db) else with_row (child (new_pk url) now depth self url) db
store new_pk now self (some k) url depth db =
    if is_none (find k db.snapshots)
    then with_row (child k now depth self url) db
    else ([], record db { snapshots = save_row k (reseed now depth self url) db.snapshots })

-- The snapshots that are created, the tables, and whether an exception ended the loop.
pub record Seeded : Type 0 where
  pub created : List Snapshot
  pub db : Db
  pub raised : Bool

abbrev pub add_created : List Snapshot → Seeded → Seeded
add_created rows r = record r { created = rows ++ r.created }

-- the tests of a URL before the capacity
abbrev pub is_skipped : Checks → Bool → Crawl → Text → ℕ → Db → Bool
unfolding any
is_skipped c only_new self url depth db =
    not (is_wanted c url)
    || ((only_new && any (λ s. snapshot_url s =? url) db.snapshots)
        || ltb self.columns.max_depth depth)

-- a line that is skipped, a crawl that is full, and a save that succeeds or not
unfoldable pub after_line : Bool → Bool → Bool → Seeded → Seeded → Seeded → Seeded
after_line is_dropped has_capacity is_saved skip full stored =
    if is_dropped
    then skip
    else if not has_capacity
    then full
    else if is_saved
    then stored
    else skip

unfoldable pub seed_lines :
    Checks → (Text → Line) → (Text → ℕ) → Bool → ℕ → (ℕ → ℕ) → Crawl → List Text → Db → Seeded
unfolding store has_remaining_snapshot_capacity is_wanted any
seed_lines c decode new_pk only_new max_urls clock self [] db = record {
  created = [];
  db = db;
  raised = false;
}
seed_lines c decode new_pk only_new max_urls clock self (line ∷ lines) db =
    let later = seed_lines c decode new_pk only_new max_urls (λ n. clock (suc n)) self lines in
    let skip = later db in
    elim (line_fields c (decode line) line) [
      | none ↦
          if is_empty (strip line) then skip else record { created = []; db = db; raised = true }
      | some (id, url, depth) ↦
          let (rows, next) = store new_pk (clock 0) self id url depth db in
          let stored = add_created rows (later next) in
          after_line (is_empty (strip line) || is_skipped c only_new self url depth db)
            (has_remaining_snapshot_capacity max_urls self db) (c.is_saved url) skip
            (record { created = []; db = db; raised = false }) stored
    ]

unfoldable pub create_snapshots_from_urls :
    Checks → (Text → Line) → (Text → ℕ) → Bool → ℕ → (ℕ → ℕ) → Crawl → Db → Seeded
unfolding seed_lines splitlines
create_snapshots_from_urls c decode new_pk only_new max_urls clock self db =
    if eq_status self.status sealed
    then record { created = []; db = db; raised = false }
    else seed_lines c decode new_pk only_new max_urls clock self (splitlines self.columns.urls) db
