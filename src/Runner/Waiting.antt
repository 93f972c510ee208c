-- ===== src/Runner/Waiting.antt =====
-- When a crawl that waits for its snapshots is due again (archivebox/services/runner.py).
use mathlib.Core.Path.{subst}
use archive_box.Base.{
  sym, ap, ℕ, ◌≡◌, inl, inr, refl, true, false, some, ◌==◌, arith, or_else, any, all, select,
  Option, none, List, [], ◌∷◌, ◌||◌, ◌&&◌, not, Bool, leb, leb_iff, min, gt_option, is_none,
  Option-cases, Bool-cases,
}
use archive_box.Queue.Table.{queued, paused, eq_status, started, count_where}
use archive_box.Db.{Snapshot, child_in, open_states}
use archive_box.Db.{wake}
use archive_box.Queue.Table.{update_where}
use archive_box.Runner.{next_after, is_unlocked}

-- the crawl has an open snapshot whose instant is after `now`
abbrev pub is_later_child : ℕ → ℕ → Snapshot → Bool
is_later_child k now s =
    s.columns.crawl_id == k
    && ((eq_status s.status queued || eq_status s.status started || eq_status s.status paused)
        && gt_option s.retry_at now)

-- `at` is not after the instant of such a snapshot
abbrev pub no_later : ℕ → ℕ → ℕ → Snapshot → Bool
no_later k now at s = not (is_later_child k now s) || leb at (or_else s.retry_at at)

-- a queued snapshot of the crawl without an instant
abbrev pub is_lost : ℕ → Snapshot → Bool
is_lost k s = s.columns.crawl_id == k && (eq_status s.status queued && is_none s.retry_at)

abbrev pub is_attained : ℕ → ℕ → ℕ → Snapshot → Bool
is_attained k now at s = is_later_child k now s && leb (or_else s.retry_at at) at

-- What the earliest instant is: none where there is no such snapshot.
abbrev pub IsNext : ℕ → ℕ → List Snapshot → Option ℕ → Type 0
IsNext k now ss none = any (is_later_child k now) ss ≡ false
IsNext k now ss (some at) =
    (all (no_later k now at) ss ≡ true) × (any (is_attained k now at) ss ≡ true)

module _ (k now : ℕ) where
  none_later :
      (at : ℕ) (ss : List Snapshot)
      → any (is_later_child k now) ss ≡ false
      → all (no_later k now at) ss ≡ true
  unfolding any all
  none_later at [] h = refl
  none_later at (s ∷ ss) h = ground (arith, none_later at ss)

  sooner :
      (at b : ℕ) (ss : List Snapshot)
      → leb at b ≡ true
      → all (no_later k now b) ss ≡ true
      → all (no_later k now at) ss ≡ true
  unfolding all
  sooner at b [] le h = refl
  sooner at b (s ∷ ss) le h = ground (arith, sooner at b ss le, no_sooner s.retry_at)
    where
      no_sooner :
          (o : Option ℕ)
          → (not (gt_option o now) || leb b (or_else o b)) ≡ true
          → (not (gt_option o now) || leb at (or_else o at)) ≡ true
      no_sooner none h = refl
      no_sooner (some x) h = ground arith

  -- a later child that comes before the others, and one that leaves them
  with_first :
      (s : Snapshot) (ss : List Snapshot) (at : ℕ) (o : Option ℕ)
      → is_later_child k now s ≡ true
      → s.retry_at ≡ some at
      → IsNext k now ss o
      → IsNext k now (s ∷ ss) (some (elim o [ none ↦ at | some b ↦ min at b ]))
  unfolding any all
  with_first s ss at none met there h =
      (ground (arith, there, none_later at ss h), ground (arith, met, there))
  with_first s ss at (some b) met there (before, attained) = elim (Bool-cases (leb at b)) [
    | inl first ↦
        let least : min at b ≡ at = omega (arith, (leb_iff at b).0 first) in
        subst (λ m. IsNext k now (s ∷ ss) (some m)) (sym least)
          (ground (arith, there, sooner at b ss first before), ground (arith, met, there))
    | inr second ↦
        let least : min at b ≡ b = ground arith in
        subst (λ m. IsNext k now (s ∷ ss) (some m)) (sym least)
          (ground (arith, there, before, second), ground (arith, attained))
  ]

  without_first :
      (s : Snapshot) (ss : List Snapshot) (o : Option ℕ)
      → is_later_child k now s ≡ false
      → IsNext k now ss o
      → IsNext k now (s ∷ ss) o
  unfolding any all
  without_first s ss none unmet h = rw unmet h
  without_first s ss (some b) unmet (before, attained) =
      (ground (arith, unmet, before), ground (arith, attained))

  pub next_after-IsNext :
      (ss : List Snapshot)
      → IsNext k now ss
          (next_after k (select (λ s. child_in k open_states s && gt_option s.retry_at now) ss))
  unfolding next_after select any
  next_after-IsNext [] = refl
  next_after-IsNext (s ∷ ss) = elim (Bool-cases (is_later_child k now s)) [
    | inr unmet ↦
        let passed : (child_in k open_states s && gt_option s.retry_at now) ≡ false =
          ground (arith, unmet) in
        rw passed (without_first s ss _ unmet (next_after-IsNext ss))
    | inl met ↦
        let taken : (child_in k open_states s && gt_option s.retry_at now) ≡ true =
          ground (arith, met) in
        elim (Option-cases s.retry_at) [
          | inl nothing ↦
              let unmet : is_later_child k now s ≡ false = ground (arith, nothing) in
              cc (met, unmet)
          | inr (at, there) ↦
              let rest =
                next_after k
                  (select (λ s. child_in k open_states s && gt_option s.retry_at now) ss) in
              let first =
                ap
                  (λ o. elim o [
                    | none ↦ rest
                    | some a ↦ some (elim rest [ none ↦ a | some b ↦ min a b ])
                  ])
                  there in
              rw taken (
                subst (IsNext k now (s ∷ ss)) (sym first)
                  (with_first s ss at rest met there (next_after-IsNext ss)))
        ]
  ]

-- the test of the repair
pub count-is_lost :
    (k : ℕ) (ss : List Snapshot) → (count_where (is_unlocked k) ss == 0) ≡ not (any (is_lost k) ss)
unfolding count_where any
count-is_lost k [] = refl
count-is_lost k (s ∷ ss) = ground (arith, count-is_lost k ss)

-- the repair leaves no such snapshot
pub repair-is_lost :
    (now k : ℕ) (ss : List Snapshot)
    → any (is_lost k) (update_where (is_unlocked k) (wake now) ss) ≡ false
unfolding update_where any
repair-is_lost now k [] = refl
repair-is_lost now k (s ∷ ss) = ground (arith, repair-is_lost now k ss)

pub repair_none :
    (now k : ℕ) (ss : List Snapshot)
    → any (is_lost k) ss ≡ false
    → update_where (is_unlocked k) (wake now) ss ≡ ss
unfolding update_where any
repair_none now k [] h = refl
repair_none now k (s ∷ ss) h =
    let unmet : is_unlocked k s ≡ false = ground (arith, h) in
    rw unmet (ap (λ rest. s ∷ rest) (repair_none now k ss (ground (arith, h))))
