-- ===== src/Locks/Changes.antt =====
-- What a change of one thread and of the state of archivebox/crawls/locks.py does to the invariant.
use archive_box.Base.{
  ℕ, ◌+◌, ◌-◌, ◌≤◌, ◌<◌, ◌≡◌, ◌≢◌, ◌⊎◌, refl, ap, true, false, Option, none, some, List, [], ◌∷◌,
  ltb, ◌==◌, arith, length, inl, inr, Bool-cases, Option-cases,
}
use archive_box.Locks.{
  LockState, Holder, Shared, Pc, idle, registered, acquired, leaving, released, Thread, update,
  can_acquire, put, new_state, set_default, register,
}
use native.Mathlib.Decide.{dec_lt}
use archive_box.Locks.Threads.{total, total-update, total-le}
use archive_box.Locks.Invariant.{
  thread, refs_at, refs, uses, extra, holds, is_ours, EntryInv, Inv, update_cases,
}

module _ {n : ℕ} {l : LockState} {f : Holder} {th : ℕ → Thread} (inv : EntryInv n l f th) (me : ℕ)
    (x : Thread) (lt : me < n) where
  -- a thread becomes a user, or one of several users leaves
  pub users_change :
      (u : ℕ)
      → u + uses (th me) ≡ l.users + uses x
      → 0 < u
      → holds x ≡ holds (th me)
      → length x.bodies ≡ length (th me).bodies
      → EntryInv n (record l { users = u }) f (update me x th)
  users_change u counts pos same deep = record {
    users = omega (arith, inv.users, total-update uses n me x th lt);
    used = pos;
    owned = λ t.
        update_cases (λ y. 0 < holds y → l.owner ≡ some t) me x th t
          (λ e h. ground (arith, inv.owned t)) (λ _. inv.owned t);
    counted = λ t o.
        update_cases (λ y. (l.depth ≡ length y.bodies) × (l.count ≡ holds y) × (0 < l.count)) me x
          th t (λ e. ground (arith, inv.counted t o)) (λ _. inv.counted t o);
    unowned = inv.unowned;
    file = inv.file;
    lock = inv.lock;
  }

  -- the owner of the thread lock, or one that takes it, works on the state
  pub owner_change :
      (l' : LockState) (f' : Holder)
      → can_acquire me l ≡ true
      → l'.users ≡ l.users
      → uses x ≡ uses (th me)
      → ((l'.owner ≡ some me)
          × (l'.depth ≡ length x.bodies)
          × (l'.count ≡ holds x)
          × (0 < l'.count))
        ⊎ ((l'.owner ≡ none) × (holds x ≡ 0) × (l'.depth ≡ 0) × (l'.count ≡ 0))
      → l'.file ≡ ltb 0 l'.depth
      → is_ours f' ≡ ltb 0 l'.depth
      → EntryInv n l' f' (update me x th)
  owner_change l' f' may us same after file lock = record {
    users = omega (arith, inv.users, total-update uses n me x th lt);
    used = omega (arith, inv.used);
    owned = λ t.
        update_cases (λ y. 0 < holds y → l'.owner ≡ some t) me x th t (λ e h. ground arith)
          (λ e h. ground (arith, inv.owned t h));
    counted = λ t o.
        update_cases (λ y. (l'.depth ≡ length y.bodies) × (l'.count ≡ holds y) × (0 < l'.count)) me
          x th t (λ e. ground arith) (λ e. ground arith);
    unowned = λ o. ground arith;
    file = file;
    lock = lock;
  }

pub some-ne-none : {o : Option ℕ} {i : ℕ} → o ≡ some i → o ≢ none
some-ne-none p q = cc (p, q)

-- What the state says of the thread that has its thread lock.
pub owner_facts :
    {n : ℕ} {l : LockState} {f : Holder} {th : ℕ → Thread}
    → EntryInv n l f th
    → (me : ℕ) {fs : List ℕ} {pc : Pc} → th me ≡ thread fs pc
    → 0 < extra pc + length fs
    → (l.owner ≡ some me) × (l.depth ≡ length fs) × (l.count ≡ extra pc + length fs)
owner_facts {th = th} inv me {fs} {pc} at_me h =
    let own = inv.owned me (rw at_me h) in
    let (deep, counts, _) = inv.counted me own in (own, rw at_me at deep, rw at_me at counts)

pub may_again : (l : LockState) (me : ℕ) → l.owner ≡ some me → can_acquire me l ≡ true
may_again l me e = ground arith

pub lock_facts :
    {n : ℕ} {l : LockState} {f : Holder} {th : ℕ → Thread}
    → EntryInv n l f th
    → (me : ℕ) {fs : List ℕ} {i : ℕ} → th me ≡ thread fs (registered i)
    → can_acquire me l ≡ true
    → (l.depth ≡ length fs) × (l.count ≡ length fs)
lock_facts {l = l} {th = th} inv me {fs} at_me may = elim (Option-cases l.owner) [
  | inl e ↦ let (d, c) = inv.unowned e in ground (arith, rw at_me at (inv.owned me))
  | inr (t, e) ↦
      let q : l.owner ≡ some me = ground arith in
      let (d, c, _) = rw at_me at (inv.counted me q) in (d, omega (arith, c))
]

abbrev pub plus_user : LockState → LockState
plus_user l = record l { users = l.users + 1 }

abbrev pub minus_user : LockState → LockState
minus_user l = record l { users = l.users - 1 }

pub length-zero : (js : List ℕ) → length js ≡ 0 → js ≡ []
length-zero [] h = refl
length-zero (j ∷ js) h = absurd (omega (arith, h))

-- If there are no users, no thread works on a state.
pub refs-zero :
    (n : ℕ) (th : ℕ → Thread)
    → total uses n th ≡ 0
    → ((t : ℕ) → n ≤ t → refs (th t) ≡ [])
    → (t : ℕ) → refs (th t) ≡ []
refs-zero n th z outside t = elim (dec_lt t n) [
  | yes inner ↦ length-zero _ (omega (arith, total-le uses n t th inner))
  | no outer ↦ outside t (omega arith)
]

pub bodies-none : (pc : Pc) (fs : List ℕ) → refs_at pc fs ≡ [] → fs ≡ []
bodies-none idle fs h = h
bodies-none (registered i) fs h = cc
bodies-none (acquired i) fs h = cc
bodies-none (leaving i) fs h = cc
bodies-none (released i) fs h = cc

-- The bodies were none before a change of one thread that keeps its bodies.
pub bodies_before :
    (me : ℕ) (x : Thread) (th : ℕ → Thread)
    → ((t : ℕ) → refs (update me x th t) ≡ [])
    → (th me).bodies ≡ x.bodies
    → (t : ℕ) → (th t).bodies ≡ []
bodies_before me x th quiet same t = elim (Bool-cases (me == t)) [
  | inl e ↦
      let at : me ≡ t = ground arith in
      let now : refs x ≡ [] = ground (arith, quiet t) in
      ground (arith, bodies-none x.pc x.bodies now)
  | inr e ↦ bodies-none (th t).pc (th t).bodies (ground (arith, quiet t))
]

pub depth-zero :
    {n : ℕ} {l : LockState} {f : Holder} {th : ℕ → Thread}
    → EntryInv n l f th
    → ((t : ℕ) → (th t).bodies ≡ [])
    → l.depth ≡ 0
depth-zero {l = l} inv quiet = elim (Option-cases l.owner) [
  | inl e ↦ (inv.unowned e).0
  | inr (t, e) ↦ ground (arith, inv.counted t e, quiet t)
]

pub holds-zero : (pc : Pc) (fs : List ℕ) → refs_at pc fs ≡ [] → extra pc + length fs ≡ 0
holds-zero idle fs h = omega (arith, ap length h)
holds-zero (registered i) fs h = cc
holds-zero (acquired i) fs h = cc
holds-zero (leaving i) fs h = cc
holds-zero (released i) fs h = cc

-- A state that was made for its first user.
pub first_entry :
    {n : ℕ} {th : ℕ → Thread} (i : ℕ) (heap : ℕ → LockState) (f : Holder)
    → 1 ≡ total uses n th
    → ((t : ℕ) → holds (th t) ≡ 0)
    → is_ours f ≡ false
    → EntryInv n (put i (plus_user (put i new_state heap i)) (put i new_state heap) i) f th
first_entry i heap f one idle_too f_free =
    let here : put i (plus_user (put i new_state heap i)) (put i new_state heap) i
        ≡ plus_user new_state =
      ground arith in
    rw here (record {
      users = one;
      used = omega arith;
      owned = λ t h. absurd (omega (arith, idle_too t));
      counted = λ t q. cc;
      unowned = λ _. (refl, refl);
      file = refl;
      lock = f_free;
    })

-- Then the registry may have no entry.
pub Inv-none :
    (n pid : ℕ) (m : Shared) (th : ℕ → Thread)
    → m.pid ≡ pid
    → m.entry ≡ none
    → is_ours m.file_lock ≡ false
    → ((t : ℕ) → refs (th t) ≡ [])
    → Inv n pid m th
Inv-none n pid m th process e f quiet = record {
  process = process;
  outside = λ t h. quiet t;
  same = λ t. rw (quiet t) tt;
  entry = λ i q. absurd (some-ne-none q e);
  empty = λ q. f;
}

pub register-same : {pid : ℕ} (m : Shared) → m.pid ≡ pid → register pid m ≡ set_default m.entry m
unfolding register
register-same m e = ground arith
