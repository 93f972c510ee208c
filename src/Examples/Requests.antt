-- ===== src/Examples/Requests.antt =====
-- A request for a plugin at a concrete snapshot, with another writer that moves its instant between the
-- read and the update of the first attempt.
use archive_box.Base.{
  ℕ, ◌≡◌, refl, true, some, [], ◌∷◌, arith, ◌==◌, if◌then◌else◌, inl, inr, Bool-cases, Option-cases,
}
use archive_box.Text.{Text, strip, rstrip, lstrip, is_space, is_in}
use archive_box.Text.Names.{sorted_set, eq_names}
use archive_box.Queue.Table.{IsKeyed, find, update_where, update_where-IsKeyed, find-update_where}
use archive_box.Db.{Snapshot, Db}
use archive_box.Snapshots.Plugins.{Answer, returned, plugin_names, schedule_plugin_run}
use archive_box.Snapshots.Plugins.Requests.{
  pending, Alive, Requested, schedule_plugin_run-settles, schedule_plugin_run-keeps,
}
use archive_box.Examples.Data.{clock, db, snapshots-IsKeyed}

abbrev moved : Snapshot → Snapshot
moved s = record s { retry_at = some 950 }

-- with seven attempts left the row of the snapshot is moved
abbrev mover : ℕ → Db → Db
mover n t =
    if n == 7 then record t { snapshots = update_where (λ s. s.pk == 7) moved t.snapshots } else t

mover-IsKeyed : (n : ℕ) (t : Db) → IsKeyed t.snapshots → IsKeyed (mover n t).snapshots
mover-IsKeyed n t keyed = elim (Bool-cases (n == 7)) [
  | inl first ↦ rw first (update_where-IsKeyed (λ s. s.pk == 7) moved t.snapshots (λ s. refl) keyed)
  | inr later ↦ rw later keyed
]

moved-pending :
    (x : Text) (t : Db)
    → pending 7 x (record t { snapshots = update_where (λ s. s.pk == 7) moved t.snapshots })
      ≡ pending 7 x t
moved-pending x t = elim (Option-cases (find 7 t.snapshots)) [
  | inl gone ↦
      ground (arith, gone, find-update_where 7 (λ s. s.pk == 7) moved t.snapshots (λ s. refl))
  | inr (s, here) ↦
      ground (arith, here, find-update_where 7 (λ s. s.pk == 7) moved t.snapshots (λ s. refl))
]

mover-pending : (x : Text) (n : ℕ) (t : Db) → pending 7 x t ≡ true → pending 7 x (mover n t) ≡ true
mover-pending x n t h = elim (Bool-cases (n == 7)) [
  | inl first ↦ rw first (rw (moved-pending x t) h)
  | inr later ↦ rw later h
]

mover-Alive : (n : ℕ) (t : Db) → Alive 7 t → Alive 7 (mover n t)
mover-Alive n t (s, here, parent) = elim (Bool-cases (n == 7)) [
  | inl first ↦ rw first (
    (if s.pk == 7 then moved s else s),
    ground (arith, here, find-update_where 7 (λ s. s.pk == 7) moved t.snapshots (λ s. refl)),
    ground arith,
  )
  | inr later ↦ rw later (s, here, parent)
]

abbrev plugin : Text
plugin = 97 ∷ []

abbrev asked : Answer × Db
asked = schedule_plugin_run (plugin ∷ []) (some 990) 900 mover (λ n i. clock i) 7 db

plugin_asked : is_in plugin (plugin_names (plugin ∷ [])) ≡ true
unfolding strip sorted_set is_in lstrip rstrip is_space
plugin_asked = refl

row_there : Alive 7 db
unfolding find
row_there = (_, refl, λ e. cc)

quiet_then : (t : Db) → mover 3 t ≡ t
quiet_then t = refl

schedule_plugin_run-settles_example : asked.0 ≡ returned true
schedule_plugin_run-settles_example =
    schedule_plugin_run-settles (plugin ∷ []) (some 990) 900 mover (λ n i. clock i) 7 plugin db 3
      plugin_asked snapshots-IsKeyed row_there mover-IsKeyed mover-Alive (omega arith) quiet_then

schedule_plugin_run-keeps_example : Requested 7 plugin 990 asked.1
unfolding schedule_plugin_run sorted_set strip lstrip rstrip is_space eq_names
schedule_plugin_run-keeps_example =
    schedule_plugin_run-keeps (plugin ∷ []) (some 990) 900 mover (λ n i. clock i) 7 plugin db
      asked.1 (inr plugin_asked) snapshots-IsKeyed mover-IsKeyed (mover-pending plugin) refl
