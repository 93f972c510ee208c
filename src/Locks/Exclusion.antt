-- ===== src/Locks/Exclusion.antt =====
-- What the locks of archivebox/crawls/locks.py promise, in every interleaving of the threads of a
-- process with other processes.
use archive_box.Base.{
  ℕ, ◌+◌, ◌≤◌, ◌<◌, ◌≡◌, ◌≢◌, ◌⊎◌, refl, ap, Bool, true, false, not, none, some, List, [], ◌∷◌,
  arith, length, All, inl, inr, Bool-cases, Option-cases,
}
use archive_box.Locks.{
  LockState, Holder, free, ours, theirs, Shared, Pc, idle, registered, acquired, leaving, released,
  Thread, System, Step, moves, takes, gives, Reach, begins, later, start, can_acquire, can_hold,
  is_free,
}
use archive_box.Locks.Threads.{total-none}
use archive_box.Locks.Invariant.{
  refs_at, refs, uses, holds, extra, is_ours, EntryInv, Inv, entry_unique,
}
use archive_box.Locks.Changes.{Inv-none}
use archive_box.Locks.Moves.{Move-Inv, others-Inv}

pub Step-Inv :
    {n pid : ℕ} {s t : System}
    → Step n pid s t
    → Inv n pid s.shared s.threads
    → Inv n pid t.shared t.threads
Step-Inv (moves me lt mv) inv = Move-Inv inv me lt refl mv
Step-Inv (takes e) inv = others-Inv inv (ground arith) refl
Step-Inv (gives e) inv = others-Inv inv (ground arith) refl

pub Reach-Inv : {n pid : ℕ} {s : System} → Reach n pid s → Inv n pid s.shared s.threads
Reach-Inv {n} {pid} begins =
    Inv-none n pid (start pid).shared (start pid).threads refl refl refl (λ t. refl)
Reach-Inv (later r st) = Step-Inv st (Reach-Inv r)

-- A thread that works on a state works on the entry.
entry_of :
    {n pid : ℕ} {m : Shared} {th : ℕ → Thread}
    → Inv n pid m th
    → (t : ℕ) → refs (th t) ≢ []
    → (i : ℕ) × (m.entry ≡ some i)
entry_of {m = m} {th} inv t h = first (refs (th t)) h (inv.same t)
  where
    first : (js : List ℕ) → js ≢ [] → All (λ j. m.entry ≡ some j) js → (i : ℕ) × (m.entry ≡ some i)
    first [] h same = absurd (h refl)
    first (j ∷ js) h same = (j, same.0)

in_body : (pc : Pc) (fs : List ℕ) → fs ≢ [] → (refs_at pc fs ≢ []) × (0 < extra pc + length fs)
in_body idle [] h = absurd (h refl)
in_body idle (f ∷ fs) h = (h, omega arith)
in_body (registered i) [] h = absurd (h refl)
in_body (registered i) (f ∷ fs) h = ((λ e. cc), omega arith)
in_body (acquired i) fs h = ((λ e. cc), omega arith)
in_body (leaving i) fs h = ((λ e. cc), omega arith)
in_body (released i) [] h = absurd (h refl)
in_body (released i) (f ∷ fs) h = ((λ e. cc), omega arith)

ne-nil-length : (fs : List ℕ) → fs ≢ [] → 0 < length fs
ne-nil-length [] h = absurd (h refl)
ne-nil-length (f ∷ fs) h = omega arith

is_ours-ours : (f : Holder) → is_ours f ≡ true → f ≡ ours
is_ours-ours free h = cc
is_ours-ours ours h = refl
is_ours-ours theirs h = cc

has_lock :
    {n : ℕ} {l : LockState} {f : Holder} {th : ℕ → Thread}
    → EntryInv n l f th
    → (t : ℕ) → l.owner ≡ some t
    → 0 < length (th t).bodies
    → f ≡ ours
has_lock {f = f} old t own h =
    let (deep, _, _) = old.counted t own in is_ours-ours f (ground (arith, deep, old.lock))

-- Two threads of a process are never in the body of the lock at the same time, and while a thread is
-- in it the process has the lock of the file, so that no thread of another process is in it. This
-- holds at every point that the threads and other processes reach in any order of their steps, nested
-- entries and files that cannot be locked included.
pub mutual_exclusion :
    {n pid : ℕ} {s : System}
    → Reach n pid s
    → (i j : ℕ) → (s.threads i).bodies ≢ []
    → (s.threads j).bodies ≢ []
    → (i ≡ j) × (s.shared.file_lock ≡ ours)
mutual_exclusion {s = s} r i j in_i in_j =
    let inv = Reach-Inv r in
    let (at_i, held_i) = in_body (s.threads i).pc (s.threads i).bodies in_i in
    let (at_j, held_j) = in_body (s.threads j).pc (s.threads j).bodies in_j in
    let (k, e) = entry_of inv i at_i in
    let old = inv.entry k e in
    let own = old.owned i held_i in
    (ground (arith, own, old.owned j held_j), has_lock old i own (ne-nil-length _ in_i))

-- Whether a thread waits: for the thread lock, or for the lock of the file.
abbrev pub waits : ℕ → Shared → Pc → Bool
waits me m (registered i) = not (can_acquire me (m.heap i))
waits me m (acquired i) = not (can_hold i m)
waits me m _ = false

-- A nested entry never waits: a thread that is in the body of the lock has both locks, whatever the
-- other threads and processes do, so that it cannot wait for itself.
pub nested-waits :
    {n pid : ℕ} {s : System}
    → Reach n pid s
    → (me : ℕ) → (s.threads me).bodies ≢ []
    → waits me s.shared (s.threads me).pc ≡ false
nested-waits {s = s} r me inside =
    let inv = Reach-Inv r in
    let (at_me, held) = in_body (s.threads me).pc (s.threads me).bodies inside in
    never (s.threads me).pc (inv.same me) held (λ i e.
      let old = inv.entry i e in
      let own = old.owned me held in
      let (deep, _, _) = old.counted me own in (own, ground (arith, ne-nil-length _ inside, deep)))
  where
    never :
        (pc : Pc)
        → All (λ j. s.shared.entry ≡ some j) (refs_at pc (s.threads me).bodies)
        → 0 < holds (s.threads me)
        → ((i : ℕ)
            → s.shared.entry ≡ some i
            → ((s.shared.heap i).owner ≡ some me) × (0 < (s.shared.heap i).depth))
        → waits me s.shared pc ≡ false
    never idle same held facts = refl
    never (registered i) same held facts = let (own, deep) = facts i same.0 in ground arith
    never (acquired i) same held facts = let (own, deep) = facts i same.0 in ground arith
    never (leaving i) same held facts = refl
    never (released i) same held facts = refl

-- When every thread of the process is outside, the registry has no entry of the key and the process
-- does not have the lock of the file: neither is leaked, by nested entries and failures included.
pub nothing_leaked :
    {n pid : ℕ} {s : System}
    → Reach n pid s
    → ((t : ℕ) → refs (s.threads t) ≡ [])
    → (s.shared.entry ≡ none) × (s.shared.file_lock ≢ ours)
nothing_leaked {n} {s = s} r quiet =
    let inv = Reach-Inv r in
    let nobody = total-none uses n s.threads (λ t. ap length (quiet t)) in
    elim (Option-cases s.shared.entry) [
      | inl e ↦ (e, λ q. ground (arith, q, inv.empty e))
      | inr (i, e) ↦ let old = inv.entry i e in absurd (omega (arith, old.used, old.users, nobody))
    ]

holds-le-uses : (pc : Pc) (fs : List ℕ) → extra pc + length fs ≤ length (refs_at pc fs)
holds-le-uses idle fs = omega arith
holds-le-uses (registered i) fs = omega arith
holds-le-uses (acquired i) fs = omega arith
holds-le-uses (leaving i) fs = omega arith
holds-le-uses (released i) fs = omega arith

theirs_of : (f : Holder) → is_free f ≡ false → is_ours f ≡ false → f ≡ theirs
theirs_of free p q = cc
theirs_of ours p q = cc
theirs_of theirs p q = refl

-- The owner of the thread lock waits for another process only.
owner_runs :
    {n : ℕ} (m : Shared) {th : ℕ → Thread} {i : ℕ}
    → EntryInv n (m.heap i) m.file_lock th
    → m.entry ≡ some i
    → (t : ℕ) → (m.heap i).owner ≡ some t
    → (pc : Pc) (fs : List ℕ) → All (λ j. m.entry ≡ some j) (refs_at pc fs)
    → (waits t m pc ≡ false) ⊎ (m.file_lock ≡ theirs)
owner_runs m old e t own idle fs same = inl refl
owner_runs m old e t own (registered j) fs same =
    let here = entry_unique e same.0 in inl (ground arith)
owner_runs m {i = i} old e t own (acquired j) fs same =
    let here : i ≡ j = entry_unique e same.0 in
    rw (← here) (elim (Bool-cases (can_hold i m)) [
      | inl may ↦ inl (rw may)
      | inr not_free ↦ inr (theirs_of m.file_lock (ground arith) (ground (arith, old.lock)))
    ])
owner_runs m old e t own (leaving j) fs same = inl refl
owner_runs m old e t own (released j) fs same = inl refl

-- No deadlock in a process: while a thread waits, some thread of it is in `_lifecycle_lock` and can
-- take its next step, or another process has the lock of the file.
pub no_deadlock :
    {n pid : ℕ} {s : System}
    → Reach n pid s
    → (me : ℕ) → waits me s.shared (s.threads me).pc ≡ true
    → ((t : ℕ) × (0 < uses (s.threads t)) × (waits t s.shared (s.threads t).pc ≡ false))
      ⊎ (s.shared.file_lock ≡ theirs)
no_deadlock {n} {pid} {s} r me stuck = by_pc (s.threads me).pc (inv.same me) stuck
  where
    m : Shared
    m = s.shared

    inv : Inv n pid m s.threads
    inv = Reach-Inv r

    running :
        (i j : ℕ)
        → m.entry ≡ some i
        → (m.heap i).owner ≡ some j
        → ((t : ℕ) × (0 < uses (s.threads t)) × (waits t m (s.threads t).pc ≡ false))
          ⊎ (m.file_lock ≡ theirs)
    running i j e own =
        elim (owner_runs m (inv.entry i e) e j own (s.threads j).pc (s.threads j).bodies
          (inv.same j)) [
            | inl runs ↦ inl (
              j,
              ground (
                arith,
                (inv.entry i e).counted j own,
                holds-le-uses (s.threads j).pc (s.threads j).bodies,
              ),
              runs,
            )
            | inr f ↦ inr f
          ]

    by_pc :
        (pc : Pc)
        → All (λ j. m.entry ≡ some j) (refs_at pc (s.threads me).bodies)
        → waits me m pc ≡ true
        → ((t : ℕ) × (0 < uses (s.threads t)) × (waits t m (s.threads t).pc ≡ false))
          ⊎ (m.file_lock ≡ theirs)
    by_pc idle same h = cc
    by_pc (registered i) same h = elim (Option-cases (m.heap i).owner) [
      | inl none_owns ↦ cc (none_owns, h)
      | inr (j, own) ↦ running i j same.0 own
    ]
    by_pc (acquired i) same h =
        inr (theirs_of m.file_lock (ground arith) (ground (arith, (inv.entry i same.0).lock)))
    by_pc (leaving i) same h = cc
    by_pc (released i) same h = cc
