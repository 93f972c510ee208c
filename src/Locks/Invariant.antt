-- ===== src/Locks/Invariant.antt =====
-- What holds of the registry, the lock states and the threads of archivebox/crawls/locks.py at every
-- point: the state in the registry is the one that every thread works on.
use archive_box.Base.{
  ℕ, ◌+◌, ◌≤◌, ◌<◌, ◌≡◌, refl, Bool, true, false, Option, none, some, List, [], ◌∷◌, ltb, ◌==◌,
  ==_iff, arith, length, All, inl, inr, Bool-cases,
}
use archive_box.Locks.{
  LockState, Holder, ours, Shared, put, Pc, idle, registered, acquired, leaving, released, Thread,
  update,
}
use archive_box.Locks.Threads.{total}

abbrev pub thread : List ℕ → Pc → Thread
thread fs pc = record { bodies = fs; pc = pc }

-- the states that a thread counts as a user of
abbrev pub refs_at : Pc → List ℕ → List ℕ
refs_at idle fs = fs
refs_at (registered i) fs = i ∷ fs
refs_at (acquired i) fs = i ∷ fs
refs_at (leaving i) fs = i ∷ fs
refs_at (released i) fs = i ∷ fs

abbrev pub refs : Thread → List ℕ
refs t = refs_at t.pc t.bodies

abbrev pub uses : Thread → ℕ
uses t = length (refs t)

-- how often a thread has the thread lock
abbrev pub extra : Pc → ℕ
extra (acquired i) = 1
extra (leaving i) = 1
extra _ = 0

abbrev pub holds : Thread → ℕ
holds t = extra t.pc + length t.bodies

abbrev pub is_ours : Holder → Bool
is_ours ours = true
is_ours _ = false

-- Of the state in the registry: how its fields count the threads.
pub record EntryInv (n : ℕ) (l : LockState) (f : Holder) (th : ℕ → Thread) : Type 0 where
  pub users : l.users ≡ total uses n th
  pub used : 0 < l.users
  pub owned : (t : ℕ) → 0 < holds (th t) → l.owner ≡ some t
  pub counted :
      (t : ℕ)
      → l.owner ≡ some t
      → (l.depth ≡ length (th t).bodies) × (l.count ≡ holds (th t)) × (0 < l.count)
  pub unowned : l.owner ≡ none → (l.depth ≡ 0) × (l.count ≡ 0)
  pub file : l.file ≡ ltb 0 l.depth
  pub lock : is_ours f ≡ ltb 0 l.depth

pub record Inv (n pid : ℕ) (m : Shared) (th : ℕ → Thread) : Type 0 where
  pub process : m.pid ≡ pid
  pub outside : (t : ℕ) → n ≤ t → refs (th t) ≡ []
  pub same : (t : ℕ) → All (λ i. m.entry ≡ some i) (refs (th t))
  pub entry : (i : ℕ) → m.entry ≡ some i → EntryInv n (m.heap i) m.file_lock th
  pub empty : m.entry ≡ none → is_ours m.file_lock ≡ false

-- Two states of the registry entry are the same one.
pub entry_unique : {o : Option ℕ} {i j : ℕ} → o ≡ some i → o ≡ some j → i ≡ j
entry_unique p q = ground arith

-- A change of one thread, seen at that thread and at another.
pub update_cases {ℓ} :
    (P : Thread → Type ℓ) (me : ℕ) (x : Thread) (th : ℕ → Thread) (t : ℕ)
    → (me ≡ t → P x)
    → ((me == t) ≡ false → P (th t))
    → P (update me x th t)
update_cases P me x th t at_me other = elim (Bool-cases (me == t)) [
  | inl e ↦ rw e (at_me (ground arith))
  | inr e ↦ rw e (other e)
]

-- An invariant of the entry's state after a change of that state and of one thread is one of the
-- whole, if the thread works on that state.
pub Inv-put :
    {n pid : ℕ} {m : Shared} {th : ℕ → Thread}
    → Inv n pid m th
    → (me i : ℕ) (l : LockState) (f : Holder) (k : ℕ) (x : Thread) → me < n
    → m.entry ≡ some i
    → All (λ j. m.entry ≡ some j) (refs x)
    → EntryInv n l f (update me x th)
    → Inv n pid (record m { next = k; heap = put i l m.heap; file_lock = f }) (update me x th)
Inv-put {n} {pid} {m} {th} inv me i l f k x lt e works new = record {
  process = inv.process;
  outside = λ t h.
      update_cases (λ y. refs y ≡ []) me x th t (λ q. absurd (omega (arith, q)))
        (λ _. inv.outside t h);
  same = λ t.
      update_cases (λ y. All (λ j. m.entry ≡ some j) (refs y)) me x th t (λ _. works)
        (λ _. inv.same t);
  entry = λ j q. rw ((==_iff i j).1 (entry_unique e q)) new;
  empty = λ q. cc;
}

-- With no entry no thread works on a state.
pub refs-none : (o : Option ℕ) (js : List ℕ) → o ≡ none → All (λ j. o ≡ some j) js → js ≡ []
refs-none o [] e h = refl
refs-none o (j ∷ js) e h = cc (e, h.0)
