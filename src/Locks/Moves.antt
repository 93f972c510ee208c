-- ===== src/Locks/Moves.antt =====
-- Every step of a thread in archivebox/crawls/locks.py keeps the invariant, and so does what another
-- process does with the lock of the file.
use archive_box.Base.{
  ℕ, ◌+◌, ◌≤◌, ◌<◌, ◌≡◌, refl, ap, true, false, Option, none, some, List, [], ◌∷◌, ltb, ◌==◌, arith,
  length, All, inl, inr, Bool-cases,
}
use archive_box.Locks.{
  Holder, Shared, Pc, idle, registered, acquired, leaving, released, Thread, Move, update,
  can_acquire, acquire, hold, unhold, release, unregister, put, new_state, add_user, set_default,
  register, entered, left, unlocked,
}
use archive_box.Locks.Threads.{total, total-update, total-none}
use archive_box.Locks.Invariant.{
  thread, refs_at, refs, uses, extra, holds, is_ours, EntryInv, Inv, Inv-put, refs-none,
  update_cases,
}
use archive_box.Locks.Changes.{
  users_change, owner_change, owner_facts, may_again, lock_facts, minus_user, refs-zero,
  bodies_before, depth-zero, holds-zero, first_entry, Inv-none, register-same,
}

module _ {n pid : ℕ} {m : Shared} {th : ℕ → Thread} (inv : Inv n pid m th) (me : ℕ)
    (lt : me < n) where
  -- the state that a thread is at is the entry, and so are those of its bodies
  here :
      {fs : List ℕ} {pc : Pc} → th me ≡ thread fs pc → All (λ j. m.entry ≡ some j) (refs_at pc fs)
  here at_me = rw at_me at (inv.same me)

  lock-Inv :
      {fs : List ℕ} {i : ℕ}
      → th me ≡ thread fs (registered i)
      → can_acquire me (m.heap i) ≡ true
      → Inv n pid (acquire me i m) (update me (thread fs (acquired i)) th)
  unfolding acquire
  lock-Inv {fs} {i} at_me may =
      let (e, bodies) = here at_me in
      let old : EntryInv n (m.heap i) m.file_lock th = inv.entry i e in
      Inv-put inv me i _ m.file_lock m.next (thread fs (acquired i)) lt e (e, bodies)
        (owner_change old me _ lt _ m.file_lock may refl (ground arith)
          (inl (let (d, c) = lock_facts old me at_me may in ground arith)) old.file old.lock)

  begin-Inv :
      {fs : List ℕ} {i : ℕ}
      → th me ≡ thread fs (acquired i)
      → Inv n pid (hold i m) (update me (thread (i ∷ fs) idle) th)
  unfolding hold
  begin-Inv {fs} {i} at_me =
      let (e, bodies) = here at_me in
      let old : EntryInv n (m.heap i) m.file_lock th = inv.entry i e in
      let facts = owner_facts old me at_me (omega arith) in
      Inv-put inv me i _ _ m.next (thread (i ∷ fs) idle) lt e (e, bodies)
        (owner_change old me _ lt (entered (m.heap i)) _ (may_again (m.heap i) me facts.0) refl
          (ground arith) (inl (ground (arith, facts))) (ground (arith, old.file))
          (ground (arith, old.lock)))

  end-Inv :
      {fs : List ℕ} {i : ℕ}
      → th me ≡ thread (i ∷ fs) idle
      → Inv n pid (unhold i m) (update me (thread fs (leaving i)) th)
  unfolding unhold
  end-Inv {fs} {i} at_me =
      let (e, bodies) = here at_me in
      let old : EntryInv n (m.heap i) m.file_lock th = inv.entry i e in
      let facts = owner_facts old me at_me (omega arith) in
      Inv-put inv me i _ _ m.next (thread fs (leaving i)) lt e (e, bodies)
        (owner_change old me _ lt (left (m.heap i)) _ (may_again (m.heap i) me facts.0) refl
          (ground arith) (inl (ground (arith, facts))) (ground (arith, old.file))
          (ground (arith, old.file, old.lock)))

  -- both of the thread that leaves a body, and of one that failed to enter the outermost one
  release-Inv :
      {fs : List ℕ} {pc : Pc} {i : ℕ}
      → th me ≡ thread fs pc
      → extra pc ≡ 1
      → refs_at pc fs ≡ i ∷ fs
      → Inv n pid (release i m) (update me (thread fs (released i)) th)
  unfolding release
  release-Inv {fs} {pc} {i} at_me one at_i =
      let (e, bodies) = rw at_i at (here at_me) in
      let old : EntryInv n (m.heap i) m.file_lock th = inv.entry i e in
      let facts = owner_facts old me at_me (omega (arith, one)) in
      Inv-put inv me i _ m.file_lock m.next (thread fs (released i)) lt e (e, bodies)
        (owner_change old me _ lt (unlocked (m.heap i)) m.file_lock
          (may_again (m.heap i) me facts.0) refl (ground (arith, at_i))
          (elim (Bool-cases ((m.heap i).count == 1)) [
            | inl z ↦ inr (ground (arith, facts))
            | inr z ↦ inl (ground (arith, facts))
          ])
          old.file old.lock)

  -- a new user of the state that is there
  enter-Inv :
      {fs : List ℕ} {i : ℕ}
      → th me ≡ thread fs idle
      → m.entry ≡ some i
      → Inv n pid
          (record (add_user i m) { next = m.next + 1 })
          (update me (thread fs (registered i)) th)
  unfolding add_user
  enter-Inv {fs} {i} at_me e =
      let old : EntryInv n (m.heap i) m.file_lock th = inv.entry i e in
      rw e at (
        Inv-put inv me i (record (m.heap i) { users = (m.heap i).users + 1 }) m.file_lock
          (m.next + 1) (thread fs (registered i)) lt e (e, here at_me)
          (users_change old me _ lt _ (ground (arith)) (omega arith) (ground arith) (ground arith)))

  -- a user leaves, and another stays
  forget_stays :
      {fs : List ℕ} {i : ℕ}
      → th me ≡ thread fs (released i)
      → ltb 1 (m.heap i).users ≡ true
      → Inv n pid (unregister i m) (update me (thread fs idle) th)
  unfolding unregister
  forget_stays {fs} {i} at_me more =
      let (e, bodies) = here at_me in
      let old = inv.entry i e in
      let stays : unregister i m ≡ record m { heap = put i (minus_user (m.heap i)) m.heap } =
        ground arith in
      rw stays (
        Inv-put inv me i (minus_user (m.heap i)) m.file_lock m.next (thread fs idle) lt e bodies
          (users_change old me _ lt _ (ground arith) (ground arith) (ground arith) (ground arith)))

  -- the last user leaves, and the entry goes
  forget_last :
      {fs : List ℕ} {i : ℕ}
      → th me ≡ thread fs (released i)
      → ltb 1 (m.heap i).users ≡ false
      → Inv n pid (unregister i m) (update me (thread fs idle) th)
  unfolding unregister
  forget_last {fs} {i} at_me last =
      let (e, bodies) = here at_me in
      let old = inv.entry i e in
      let th' = update me (thread fs idle) th in
      let outside' : (t : ℕ) → n ≤ t → refs (th' t) ≡ [] = (λ t h.
        update_cases (λ y. refs y ≡ []) me (thread fs idle) th t (λ q. absurd (omega (arith, q)))
          (λ _. inv.outside t h)) in
      let change = total-update uses n me (thread fs idle) th lt in
      let zero_users : total uses n th' ≡ 0 = ground (arith, old.users, change) in
      let quiet = refs-zero n th' zero_users outside' in
      let deep : (m.heap i).depth ≡ 0 =
        depth-zero old (bodies_before me (thread fs idle) th quiet (ground arith)) in
      let gone : unregister i m
          ≡ record m { entry = none; heap = put i (minus_user (m.heap i)) m.heap } =
        ground (arith, old.used) in
      rw gone (Inv-none n pid _ th' inv.process refl (ground (arith, old.lock)) quiet)

  forget-Inv :
      {fs : List ℕ} {i : ℕ}
      → th me ≡ thread fs (released i)
      → Inv n pid (unregister i m) (update me (thread fs idle) th)
  forget-Inv {fs} {i} at_me = elim (Bool-cases (ltb 1 (m.heap i).users)) [
    | inl more ↦ forget_stays at_me more
    | inr last ↦ forget_last at_me last
  ]

  -- the first user makes the state
  first_user :
      {fs : List ℕ}
      → th me ≡ thread fs idle
      → m.entry ≡ none
      → Inv n pid
          (add_user m.next (record m { next = m.next + 1; heap = put m.next new_state m.heap }))
          (update me (thread fs (registered m.next)) th)
  unfolding add_user
  first_user {fs} at_me e =
      let th' = update me (thread fs (registered m.next)) th in
      let quiet : (t : ℕ) → refs (th t) ≡ [] =
        (λ t. refs-none m.entry (refs (th t)) e (inv.same t)) in
      let zero_users : total uses n th ≡ 0 = total-none uses n th (λ t. ap length (quiet t)) in
      let change = total-update uses n me (thread fs (registered m.next)) th lt in
      let fs_none : fs ≡ [] = rw at_me at (quiet me) in
      let idle_too : (t : ℕ) → holds (th' t) ≡ 0 = (λ t.
        update_cases (λ y. holds y ≡ 0) me (thread fs (registered m.next)) th t
          (λ _. ground (arith, fs_none)) (λ _. holds-zero (th t).pc (th t).bodies (quiet t))) in
      let works : All (λ j. some m.next ≡ some j) (m.next ∷ fs) = (refl, rw fs_none tt) in
      let one_user : 1 ≡ total uses n th' = ground (arith, zero_users, change, fs_none) in
      record {
        process = inv.process;
        outside = λ t h.
            update_cases (λ y. refs y ≡ []) me (thread fs (registered m.next)) th t
              (λ q. absurd (omega (arith, q))) (λ _. inv.outside t h);
        same = λ t.
            update_cases (λ y. All (λ j. some m.next ≡ some j) (refs y)) me
              (thread fs (registered m.next)) th t (λ _. works) (λ _. rw (quiet t) tt);
        entry = λ j q.
            let here : m.next ≡ j = ground arith in
            rw (← here) (first_entry m.next m.heap m.file_lock one_user idle_too (inv.empty e));
        empty = λ q. cc;
      }

  set_default-Inv :
      {fs : List ℕ} (o : Option ℕ)
      → th me ≡ thread fs idle
      → m.entry ≡ o
      → Inv n pid (set_default o m).0 (update me (thread fs (registered (set_default o m).1)) th)
  unfolding set_default
  set_default-Inv none at_me e = first_user at_me e
  set_default-Inv (some i) at_me e = enter-Inv at_me e

  register-Inv :
      {fs : List ℕ}
      → th me ≡ thread fs idle
      → Inv n pid (register pid m).0 (update me (thread fs (registered (register pid m).1)) th)
  register-Inv at_me = rw (register-same m inv.process) (set_default-Inv m.entry at_me refl)

  -- Every step of a thread keeps the invariant.
  pub Move-Inv :
      {fs fs' : List ℕ} {pc pc' : Pc} {m' : Shared}
      → th me ≡ thread fs pc
      → Move pid me m fs pc m' fs' pc'
      → Inv n pid m' (update me (thread fs' pc') th)
  Move-Inv at_me Move.enter = register-Inv at_me
  Move-Inv at_me (Move.lock may) = lock-Inv at_me may
  Move-Inv at_me (Move.begin may) = begin-Inv at_me
  Move-Inv at_me (Move.fail outer) = release-Inv at_me refl refl
  Move-Inv at_me Move.end = end-Inv at_me
  Move-Inv at_me Move.unlock = release-Inv at_me refl refl
  Move-Inv at_me Move.forget = forget-Inv at_me

-- So does another process that takes the free lock of the file or gives back its own.
pub others-Inv :
    {n pid : ℕ} {m : Shared} {th : ℕ → Thread} {f : Holder}
    → Inv n pid m th
    → is_ours m.file_lock ≡ false
    → is_ours f ≡ false
    → Inv n pid (record m { file_lock = f }) th
others-Inv inv before after = record {
  process = inv.process;
  outside = inv.outside;
  same = inv.same;
  entry = λ i e.
      let old = inv.entry i e in
      record {
        users = old.users;
        used = old.used;
        owned = old.owned;
        counted = old.counted;
        unowned = old.unowned;
        file = old.file;
        lock = ground (arith, old.lock);
      };
  empty = λ _. after;
}
