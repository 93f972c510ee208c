-- ===== src/Examples/Locking.antt =====
-- The locks of archivebox/crawls/locks.py in one order of steps: a thread enters twice, another waits,
-- and the first leaves.
use archive_box.Base.{ℕ, zero, suc, ◌<◌, ◌≡◌, ◌≢◌, ◌⊎◌, refl, true, false, none, List, [], arith}
use archive_box.Locks.{
  ours, theirs, Shared, Pc, System, moves, Reach, begins, later, Move, register, acquire, release,
  hold, unhold, unregister,
}
use archive_box.Locks.Invariant.{refs, uses}
use archive_box.Locks.Exclusion.{mutual_exclusion, no_deadlock, nothing_leaked, waits}
use archive_box.Locks.Mutex.{Turn, view, Step-Turn}

-- A point that the threads 0 and 1 of the process 7 reach.
record Run : Type 0 where
  last : System
  reach : Reach 2 7 last

abbrev step :
    (r : Run) (me : ℕ) {m : Shared} {fs : List ℕ} {pc : Pc}
    → me < 2
    → Move 7 me r.last.shared (r.last.threads me).bodies (r.last.threads me).pc m fs pc
    → Run
step r me lt mv = record { last = _; reach = later r.reach (moves me lt mv) }

abbrev outside : Run
outside = record { last = _; reach = begins }

abbrev entering : Run
entering = step outside 0 (omega arith) Move.enter

abbrev inside : Run
unfolding register acquire
inside =
    step (step entering 0 (omega arith) (Move.lock {i = 0} refl)) 0 (omega arith)
      (Move.begin {i = 0} refl)

abbrev nested : Run
unfolding register acquire hold
nested = step inside 0 (omega arith) Move.enter

-- the thread 1 waits for the thread 0
abbrev contended : Run
unfolding register acquire hold
contended = step inside 1 (omega arith) Move.enter

abbrev left_again : Run
unfolding register acquire hold unhold release
left_again =
    step
      (step (step inside 0 (omega arith) (Move.end {i = 0})) 0 (omega arith) (Move.unlock {i = 0}))
      0 (omega arith) (Move.forget {i = 0})

thread_inside : (inside.last.threads 0).bodies ≢ []
unfolding register acquire hold
thread_inside e = cc

mutual_exclusion_example : (◌≡◌ {A = ℕ} 0 0) × (inside.last.shared.file_lock ≡ ours)
mutual_exclusion_example = mutual_exclusion inside.reach 0 0 thread_inside thread_inside

nested_inside : (nested.last.threads 0).bodies ≢ []
unfolding register acquire hold
nested_inside e = cc

contended_waits : waits 1 contended.last.shared (contended.last.threads 1).pc ≡ true
unfolding register acquire hold
contended_waits = refl

no_deadlock_example :
    ((t : ℕ) × (0 < uses (contended.last.threads t))
      × (waits t contended.last.shared (contended.last.threads t).pc ≡ false))
    ⊎ (contended.last.shared.file_lock ≡ theirs)
no_deadlock_example = no_deadlock contended.reach 1 contended_waits

left_quiet : (t : ℕ) → refs (left_again.last.threads t) ≡ []
unfolding register acquire hold unhold release unregister
left_quiet zero = refl
left_quiet (suc t) = ground arith

nothing_leaked_example :
    (left_again.last.shared.entry ≡ none) × (left_again.last.shared.file_lock ≢ ours)
nothing_leaked_example = nothing_leaked left_again.reach left_quiet

Step-Turn_example : Turn (view inside.last) (view nested.last)
unfolding register acquire hold
Step-Turn_example = Step-Turn inside.reach (moves 0 (omega arith) Move.enter)
