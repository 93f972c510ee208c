-- ===== src/Crawls/Pausing.antt =====
-- What `Crawl.pause` of archivebox/crawls/models.py does to the snapshots of the crawl.
use mathlib.Core.Option
use mathlib.Core.Path.{subst}
use archive_box.Base.{
  ◌⊎◌, inl, inr, Bool-cases, ℕ, suc, ◌≡◌, ◌≢◌, refl, sym, ◌∙◌, ◌⊎◌, inl, inr, Bool, true, false,
  ◌&&◌, some, List, [], ◌∷◌, arith, ◌==◌, select, All, All-map, All-select, All-of_select, ap,
  Option-cases,
}
use archive_box.Queue.Table.{
  status_at, paused, sealed, IsKeyed, find, change_if, find-update_where, pk-find,
}
use archive_box.Queue.Table.Keyed.{find-update_where_ne, All-find, find-IsKeyed}
use archive_box.Queue.{crawl_class, Outcome, write, move_to, has_status, retry_at_max, safe_update}
use archive_box.Queue.Update.{write-KeepsKey}
use archive_box.Queue
use archive_box.Db.{Crawl, Snapshot, Db}
use archive_box.Crawls.Lifecycle.{pause_children, not_final, pause}

-- a saved `safe_update` of an object, seen at one key
find-safe_update :
    (k now : ℕ) (guard : Snapshot → Bool) (self : Snapshot) (t : List Snapshot)
    → find k (safe_update now (move_to paused (some retry_at_max)) true guard self t).rows
      ≡ Option.map
          (change_if
            (λ s. s.pk == self.pk && guard s)
            (write now (move_to paused (some retry_at_max))))
          (find k t)
unfolding safe_update
find-safe_update k now guard self t =
    find-update_where k _ _ t (write-KeepsKey now (move_to paused (some retry_at_max)))

-- pausing any object leaves each row alone or pauses it
pause_effect :
    (k now : ℕ) (self : Snapshot) (t : List Snapshot)
    → (find k (Queue.pause crawl_class now true self t).rows ≡ find k t)
      ⊎ (status_at k (Queue.pause crawl_class now true self t).rows ≡ some paused)
unfolding Queue.pause
pause_effect k now self t = elim (Option-cases (find k t)) [
  | inl gone ↦ ground (
    arith,
    gone,
    find-safe_update k now (has_status self.status)
        (record self { status = paused; retry_at = some retry_at_max }) t,
  )
  | inr (r, found) ↦ ground (
    arith,
    found,
    find-safe_update k now (has_status self.status)
        (record self { status = paused; retry_at = some retry_at_max }) t,
  )
]

pause_keeps_paused :
    (k now : ℕ) (self : Snapshot) (t : List Snapshot)
    → status_at k t ≡ some paused
    → status_at k (Queue.pause crawl_class now true self t).rows ≡ some paused
pause_keeps_paused k now self t h = elim (pause_effect k now self t) [
  | inl same ↦ rw same h
  | inr p ↦ p
]

-- pausing an object that is as the table has it
pause_fresh :
    (now : ℕ) (self : Snapshot) (t : List Snapshot)
    → find self.pk t ≡ some self
    → self.status ≢ sealed
    → status_at self.pk (Queue.pause crawl_class now true self t).rows ≡ some paused
unfolding Queue.pause
pause_fresh now self t found active = ground (
  arith,
  found,
  find-safe_update self.pk now (has_status self.status)
      (record self { status = paused; retry_at = some retry_at_max }) t,
)

-- the loop: each row that it started from is paused at its end
abbrev Pending : List Snapshot → Snapshot → Type 0
Pending t s = ((find s.pk t ≡ some s) × (s.status ≢ sealed)) ⊎ (status_at s.pk t ≡ some paused)

Pending-pause :
    (now : ℕ) (x s : Snapshot) (t : List Snapshot)
    → Pending t s
    → Pending (Queue.pause crawl_class now true x t).rows s
Pending-pause now x s t (inr p) = inr (pause_keeps_paused s.pk now x t p)
Pending-pause now x s t (inl (found, active)) = elim (pause_effect s.pk now x t) [
  | inl same ↦ inl (rw same found, active)
  | inr p ↦ inr p
]

Pending-pause-each :
    (now : ℕ) (x : Snapshot) (ss t : List Snapshot)
    → All (Pending t) ss
    → All (Pending (Queue.pause crawl_class now true x t).rows) ss
Pending-pause-each now x [] t h = tt
Pending-pause-each now x (s ∷ ss) t h =
    (Pending-pause now x s t h.0, Pending-pause-each now x ss t h.1)

pause_children_keeps_paused :
    (k : ℕ) (clock : ℕ → ℕ) (ss t : List Snapshot)
    → status_at k t ≡ some paused
    → status_at k (pause_children clock ss t) ≡ some paused
unfolding pause_children
pause_children_keeps_paused k clock [] t h = h
pause_children_keeps_paused k clock (s ∷ ss) t h =
    pause_children_keeps_paused k (λ n. clock (suc n)) ss
      (Queue.pause crawl_class (clock 0) true s t).rows
      (unfold pause_children in pause_keeps_paused k (clock 0) s t h)

Pending-head :
    (now : ℕ) (s : Snapshot) (t : List Snapshot)
    → Pending t s
    → status_at s.pk (Queue.pause crawl_class now true s t).rows ≡ some paused
Pending-head now s t (inl (found, active)) = pause_fresh now s t found active
Pending-head now s t (inr p) = pause_keeps_paused s.pk now s t p

find-safe_update_ne :
    (k now : ℕ) (guard : Snapshot → Bool) (self : Snapshot) (t : List Snapshot)
    → self.pk ≢ k
    → find k (safe_update now (move_to paused (some retry_at_max)) true guard self t).rows
      ≡ find k t
unfolding safe_update
find-safe_update_ne k now guard self t ne =
    find-update_where_ne self.pk k guard _ t
      (write-KeepsKey now (move_to paused (some retry_at_max))) (λ e. ne (sym e))

pause_children-Pending :
    (clock : ℕ → ℕ) (ss t : List Snapshot)
    → All (Pending t) ss
    → All (λ s. status_at s.pk (pause_children clock ss t) ≡ some paused) ss
unfolding pause_children
pause_children-Pending clock [] t h = tt
pause_children-Pending clock (s ∷ ss) t h =
    let rows = (Queue.pause crawl_class (clock 0) true s t).rows in
    (
      pause_children_keeps_paused s.pk (λ n. clock (suc n)) ss rows
          (Pending-head (clock 0) s t h.0),
      pause_children-Pending (λ n. clock (suc n)) ss rows (Pending-pause-each (clock 0) s ss t h.1),
    )

-- the rows that the loop does not start from are as they were
pause_ne :
    (k now : ℕ) (self : Snapshot) (t : List Snapshot)
    → self.pk ≢ k
    → find k (Queue.pause crawl_class now true self t).rows ≡ find k t
unfolding Queue.pause
pause_ne k now self t ne = ground (
  arith,
  find-safe_update_ne k now (has_status self.status)
      (record self { status = paused; retry_at = some retry_at_max }) t ne,
)

pause_children_ne :
    (k : ℕ) (clock : ℕ → ℕ) (ss t : List Snapshot)
    → All (λ s. s.pk ≢ k) ss
    → find k (pause_children clock ss t) ≡ find k t
unfolding pause_children
pause_children_ne k clock [] t h = refl
pause_children_ne k clock (s ∷ ss) t h =
    let rows = (Queue.pause crawl_class (clock 0) true s t).rows in
    pause_children_ne k (λ n. clock (suc n)) ss rows h.1 ∙ pause_ne k (clock 0) s t h.0

not_final-ne-sealed : (k : ℕ) (s : Snapshot) → not_final k s ≡ true → s.status ≢ sealed
unfolding not_final
not_final-ne-sealed k s h e = ground arith

started_from :
    (crawl_id : ℕ) (t : List Snapshot)
    → IsKeyed t
    → All
        (λ s. (find s.pk t ≡ some s) × (not_final crawl_id s ≡ true))
        (select (not_final crawl_id) t)
started_from crawl_id t keyed =
    All-select (λ s. find s.pk t ≡ some s) (not_final crawl_id) t (find-IsKeyed t keyed)

loop_pauses :
    (clock : ℕ → ℕ) (crawl_id k : ℕ) (t : List Snapshot) (s : Snapshot)
    → IsKeyed t
    → find k t ≡ some s
    → not_final crawl_id s ≡ true
    → status_at k (pause_children clock (select (not_final crawl_id) t) t) ≡ some paused
loop_pauses clock crawl_id k t s keyed found active =
    let p = not_final crawl_id in
    let after = pause_children clock (select p t) t in
    let pending =
      All-map (λ x. (find x.pk t ≡ some x) × (p x ≡ true)) (Pending t) (select p t)
        (λ x h. inl (h.0, not_final-ne-sealed crawl_id x h.1)) (started_from crawl_id t keyed) in
    let ended =
      All-of_select (λ x. status_at x.pk after ≡ some paused) p t
        (pause_children-Pending clock (select p t) t pending) in
    subst (λ j. status_at j after ≡ some paused) (pk-find k t s found)
      (All-find (λ x. p x ≡ true → status_at x.pk after ≡ some paused) k t s ended found active)

loop_leaves :
    (clock : ℕ → ℕ) (crawl_id k : ℕ) (t : List Snapshot) (s : Snapshot)
    → IsKeyed t
    → find k t ≡ some s
    → not_final crawl_id s ≡ false
    → find k (pause_children clock (select (not_final crawl_id) t) t) ≡ some s
loop_leaves clock crawl_id k t s keyed found other =
    let p = not_final crawl_id in
    let apart =
      All-map (λ x. (find x.pk t ≡ some x) × (p x ≡ true)) (λ x. x.pk ≢ k) (select p t)
        (λ x h e. cc (h.0, h.1, ap (λ j. find j t) e, found, other))
        (started_from crawl_id t keyed) in
    pause_children_ne k clock (select p t) t apart ∙ found

module _ (clock : ℕ → ℕ) (self : Crawl) (db : Db) (k : ℕ) (s : Snapshot)
    (keyed : IsKeyed db.snapshots) (found : find k db.snapshots ≡ some s)
    (paused_crawl : (pause clock true self db).done ≡ true) where
  snapshots-pause :
      (pause clock true self db).db.snapshots
      ≡ pause_children (λ n. clock (suc n)) (select (not_final self.pk) db.snapshots) db.snapshots
  unfolding pause
  snapshots-pause = ground arith

  -- In a table with unique keys, a call of `pause` on a crawl that reports success pauses each of its
  -- snapshots that is not sealed, whatever its status, and leaves every other snapshot as it was.
  pub pause-children :
      ((not_final self.pk s ≡ true)
        × (status_at k (pause clock true self db).db.snapshots ≡ some paused))
      ⊎ ((not_final self.pk s ≡ false) × (find k (pause clock true self db).db.snapshots ≡ some s))
  pause-children = elim (Bool-cases (not_final self.pk s)) [
    | inl child ↦ inl (
      child,
      rw snapshots-pause
          (loop_pauses (λ n. clock (suc n)) self.pk k db.snapshots s keyed found child),
    )
    | inr other ↦ inr (
      other,
      rw snapshots-pause
          (loop_leaves (λ n. clock (suc n)) self.pk k db.snapshots s keyed found other),
    )
  ]
