-- ===== src/Locks/Mutex.antt =====
-- The abstract lock that archivebox/crawls/locks.py implements: how deep each thread is in its body,
-- and who has the lock of the file. The registry, the users and the thread lock are gone.
use archive_box.Base.{
  ℕ, suc, ◌+◌, ◌≡◌, ◌≢◌, refl, ap, ◌∙◌, true, Option, none, some, List, ◌∷◌, ◌==◌, ltb, arith,
  length, if◌then◌else◌, inl, inr, Bool-cases,
}
use mathlib.Core.Path.{fun_ext}
use archive_box.Locks.{
  LockState, Holder, free, ours, theirs, Shared, Pc, idle, acquired, leaving, can_hold, Thread,
  update, Move, System, Step, moves, takes, gives, Reach, register, after_fork, set_default,
  acquire, release, hold, unhold, unregister,
}
use archive_box.Locks.Invariant.{thread, EntryInv, Inv}
use archive_box.Locks.Changes.{owner_facts}
use archive_box.Locks.Exclusion.{Reach-Inv}

pub record Mutex : Type 0 where
  pub depth : ℕ → ℕ
  pub holder : Holder

abbrev pub set_depth : ℕ → ℕ → (ℕ → ℕ) → ℕ → ℕ
set_depth t k depth u = if t == u then k else depth u

-- A thread enters if no other thread is inside, from outside only with the lock of the file free; it
-- leaves, and gives that lock back as it goes outside; others take the free lock and give it back.
pub data Turn (a : Mutex) : Mutex → Type 0 where
  nothing : Turn a a
  enter_first :
      (t : ℕ)
      → ((u : ℕ) → a.depth u ≡ 0)
      → a.holder ≡ free
      → Turn a (record { depth = set_depth t 1 a.depth; holder = ours })
  enter_again :
      (t : ℕ)
      → a.depth t ≢ 0
      → ((u : ℕ) → u ≢ t → a.depth u ≡ 0)
      → Turn a (record a { depth = set_depth t (a.depth t + 1) a.depth })
  leave :
      (t k : ℕ)
      → a.depth t ≡ suc k
      → Turn a
          (record { depth = set_depth t k a.depth; holder = if k == 0 then free else a.holder })
  other_takes : a.holder ≡ free → Turn a (record a { holder = theirs })
  other_gives : a.holder ≡ theirs → Turn a (record a { holder = free })

abbrev pub depths : (ℕ → Thread) → ℕ → ℕ
depths th t = length (th t).bodies

abbrev pub view : System → Mutex
view s = record { depth = depths s.threads; holder = s.shared.file_lock }

depths_same :
    (th : ℕ → Thread) (me : ℕ) (x : Thread)
    → length x.bodies ≡ depths th me
    → depths (update me x th) ≡ depths th
depths_same th me x same = fun_ext λ u. elim (Bool-cases (me == u)) [
  | inl e ↦ let at : me ≡ u = ground arith in ground arith
  | inr e ↦ rw e
]

depths-update :
    (th : ℕ → Thread) (me : ℕ) (x : Thread)
    → depths (update me x th) ≡ set_depth me (length x.bodies) (depths th)
depths-update th me x = fun_ext λ u. ground arith

set_default-file : (o : Option ℕ) (m : Shared) → (set_default o m).0.file_lock ≡ m.file_lock
unfolding set_default
set_default-file none m = refl
set_default-file (some i) m = refl

register-file : (pid : ℕ) (m : Shared) → (register pid m).0.file_lock ≡ m.file_lock
unfolding register
register-file pid m = let m' = after_fork pid m in set_default-file m'.entry m' ∙ ground arith

reads :
    {a : Mutex} {d e : ℕ → ℕ} {g h : Holder}
    → d ≡ e
    → g ≡ h
    → Turn a (record { depth = e; holder = h })
    → Turn a (record { depth = d; holder = g })
reads p q turn = rw (p, q) turn

-- Only the owner of the thread lock is inside.
alone_of :
    {n : ℕ} {l : LockState} {f : Holder} {th : ℕ → Thread}
    → EntryInv n l f th
    → (me : ℕ) → l.owner ≡ some me
    → (u : ℕ) → u ≢ me
    → depths th u ≡ 0
alone_of {th = th} old me own u other = elim (Bool-cases (ltb 0 (depths th u))) [
  | inl inside ↦ ground (arith, old.owned u (ground arith))
  | inr outside ↦ ground arith
]

module _ {n pid : ℕ} {m : Shared} {th : ℕ → Thread} (inv : Inv n pid m th) (me : ℕ) where
  abbrev before : Mutex
  before = record { depth = depths th; holder = m.file_lock }

  abbrev after : Holder → Thread → Mutex
  after f x = record { depth = depths (update me x th); holder = f }

  -- a step that only the implementation sees
  stays :
      (f : Holder) (x : Thread)
      → length x.bodies ≡ depths th me
      → f ≡ m.file_lock
      → Turn before (after f x)
  stays f x same e = reads (depths_same th me x same) e Turn.nothing

  begins_body :
      {fs : List ℕ} {i : ℕ}
      → th me ≡ thread fs (acquired i)
      → can_hold i m ≡ true
      → Turn before (after (hold i m).file_lock (thread (i ∷ fs) idle))
  unfolding hold
  begins_body {fs} {i} at_me may =
      let e = (rw at_me at (inv.same me)).0 in
      let old = inv.entry i e in
      let (own, deep, _) = owner_facts old me at_me (omega arith) in
      let alone : (u : ℕ) → u ≢ me → depths th u ≡ 0 = (λ u other. alone_of old me own u other) in
      let now = depths-update th me (thread (i ∷ fs) idle) in
      elim (Bool-cases ((m.heap i).depth == 0)) [
        | inl outer ↦
            reads (now ∙ ap (λ k. set_depth me k (depths th)) (ground (arith, deep))) (rw outer)
              (Turn.enter_first me (λ u. ground (arith, alone u, deep)) (ground arith))
        | inr inner ↦
            reads (now ∙ ap (λ k. set_depth me k (depths th)) (ground (arith, deep))) (rw inner)
              (Turn.enter_again me (ground (arith, deep)) alone)
      ]

  ends_body :
      {fs : List ℕ} {i : ℕ}
      → th me ≡ thread (i ∷ fs) idle
      → Turn before (after (unhold i m).file_lock (thread fs (leaving i)))
  unfolding unhold
  ends_body {fs} {i} at_me =
      let e = (rw at_me at (inv.same me)).0 in
      let old = inv.entry i e in
      let (own, deep, _) = owner_facts old me at_me (omega arith) in
      let now = depths-update th me (thread fs (leaving i)) in
      reads now (ground (arith, old.file, deep)) (Turn.leave me (length fs) (rw at_me))

  Move-Turn :
      {fs fs' : List ℕ} {pc pc' : Pc} {m' : Shared}
      → th me ≡ thread fs pc
      → Move pid me m fs pc m' fs' pc'
      → Turn before (after m'.file_lock (thread fs' pc'))
  unfolding acquire release unregister
  Move-Turn at_me Move.enter = stays _ _ (ground arith) (register-file pid m)
  Move-Turn at_me (Move.lock may) = stays _ _ (ground arith) refl
  Move-Turn at_me (Move.begin may) = begins_body at_me may
  Move-Turn at_me (Move.fail outer) = stays _ _ (ground arith) refl
  Move-Turn at_me Move.end = ends_body at_me
  Move-Turn at_me Move.unlock = stays _ _ (ground arith) refl
  Move-Turn at_me Move.forget = stays _ _ (ground arith) refl

-- Refinement: every step of a thread or of another process, from every point that is reached, is a step
-- of the abstract lock or leaves it as it is. In the abstract lock a thread enters only if no other
-- thread of the process is inside, and from outside only if the lock of the file is free; it gives the
-- lock of the file back exactly as it goes outside.
pub Step-Turn : {n pid : ℕ} {s t : System} → Reach n pid s → Step n pid s t → Turn (view s) (view t)
Step-Turn r (moves me lt mv) = Move-Turn (Reach-Inv r) me refl mv
Step-Turn r (takes e) = Turn.other_takes e
Step-Turn r (gives e) = Turn.other_gives e
