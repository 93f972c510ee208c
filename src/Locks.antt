-- ===== src/Locks.antt =====
-- The lifecycle locks of archivebox/crawls/locks.py, seen at one key of the registry: the keys do not
-- interact. Threads of one process share the registry, the lock states that it hands out, and the
-- lock of the file, which other processes take as well. A step is what happens between two points at
-- which another thread can run; a thread may stand inside several nested `with` blocks of the key.
pub mod Threads
pub mod Invariant
pub mod Changes
pub mod Moves
pub mod Exclusion
pub mod Mutex
use archive_box.Base.{
  ℕ, suc, ◌+◌, ◌-◌, ◌<◌, ◌≡◌, ◌≢◌, ◌⊎◌, Bool, true, false, ◌&&◌, ◌||◌, Option, none, some, List, [],
  ◌∷◌, ◌==◌, eq_option, if◌then◌else◌, is_none, length,
}

-- `_LifecycleLockState`: the owner and the count are those of its reentrant thread lock, and `file`
-- says that it has an open file.
pub record LockState : Type 0 where
  pub users : ℕ
  pub depth : ℕ
  pub owner : Option ℕ
  pub count : ℕ
  pub file : Bool

abbrev pub new_state : LockState
new_state = record { users = 0; depth = 0; owner = none; count = 0; file = false }

-- who has the lock of the file, as `flock` keeps it
pub data Holder : Type 0 where
  free ours theirs : Holder

-- `_registry_pid`, the entry of the key in `_registry`, and the states by their identity
pub record Shared : Type 0 where
  pub pid : ℕ
  pub entry : Option ℕ
  pub next : ℕ
  pub heap : ℕ → LockState
  pub file_lock : Holder

abbrev pub put : ℕ → LockState → (ℕ → LockState) → ℕ → LockState
put i l heap j = if i == j then l else heap j

abbrev pub set_state : ℕ → LockState → Shared → Shared
set_state i l m = record m { heap = put i l m.heap }

-- the registry of a process that was forked is emptied
abbrev after_fork : ℕ → Shared → Shared
after_fork pid m = if m.pid == pid then m else record m { pid = pid; entry = none }

unfoldable pub add_user : ℕ → Shared → Shared
add_user i m =
    let l = m.heap i in
    record m { entry = some i; heap = put i (record l { users = l.users + 1 }) m.heap }

-- The first block under `_registry_lock`. `setdefault` builds a new state in any case.
unfoldable pub set_default : Option ℕ → Shared → Shared × ℕ
unfolding add_user
set_default none m =
    let fresh = record m { next = m.next + 1; heap = put m.next new_state m.heap } in
    (add_user m.next fresh, m.next)
set_default (some i) m = (add_user i (record m { next = m.next + 1 }), i)

unfoldable pub register : ℕ → Shared → Shared × ℕ
unfolding set_default
register pid m = let m' = after_fork pid m in set_default m'.entry m'

-- `thread_lock.acquire()`, which waits while another thread is the owner, and `release()`
abbrev pub can_acquire : ℕ → LockState → Bool
can_acquire me l = is_none l.owner || eq_option l.owner (some me)

abbrev pub locked_by : ℕ → LockState → LockState
locked_by me l = record l { owner = some me; count = l.count + 1 }

unfoldable pub acquire : ℕ → ℕ → Shared → Shared
acquire me i m = set_state i (locked_by me (m.heap i)) m

abbrev pub unlocked : LockState → LockState
unlocked l = record l { count = l.count - 1; owner = if l.count == 1 then none else l.owner }

unfoldable pub release : ℕ → Shared → Shared
release i m = set_state i (unlocked (m.heap i)) m

-- Up to the `yield`: the outermost entry takes the lock of the file, which waits until it is free.
abbrev pub is_free : Holder → Bool
is_free free = true
is_free _ = false

abbrev pub can_hold : ℕ → Shared → Bool
can_hold i m = if (m.heap i).depth == 0 then is_free m.file_lock else true

abbrev pub entered : LockState → LockState
entered l = record l { depth = l.depth + 1; file = if l.depth == 0 then true else l.file }

unfoldable pub hold : ℕ → Shared → Shared
hold i m = record m {
  heap = put i (entered (m.heap i)) m.heap;
  file_lock = if (m.heap i).depth == 0 then ours else m.file_lock;
}

-- The `finally` of the `yield`.
abbrev pub is_last : LockState → Bool
is_last l = l.depth - 1 == 0 && l.file

abbrev pub left : LockState → LockState
left l = record l { depth = l.depth - 1; file = if is_last l then false else l.file }

unfoldable pub unhold : ℕ → Shared → Shared
unhold i m = record m {
  heap = put i (left (m.heap i)) m.heap;
  file_lock = if is_last (m.heap i) then free else m.file_lock;
}

-- The last block under `_registry_lock`.
unfoldable pub unregister : ℕ → Shared → Shared
unregister i m =
    let l = m.heap i in
    let unused = l.users - 1 == 0 && l.depth == 0 && eq_option m.entry (some i) in
    record m {
      heap = put i (record l { users = l.users - 1 }) m.heap;
      entry = if unused then none else m.entry;
    }

-- Where a thread stands in `_lifecycle_lock`, with the state that it works on: outside or in a body,
-- before `acquire`, before the entry of the body, before `release`, and before the last block.
pub data Pc : Type 0 where
  idle : Pc
  registered : ℕ → Pc
  acquired : ℕ → Pc
  leaving : ℕ → Pc
  released : ℕ → Pc

-- One step of the thread `me`. The list holds the state of each body that it is in, innermost first.
-- Opening or locking the file may raise, at the outermost entry only.
pub data Move (pid me : ℕ) (m : Shared) : List ℕ → Pc → Shared → List ℕ → Pc → Type 0 where
  enter :
      {fs : List ℕ} → Move pid me m fs idle (register pid m).0 fs (registered (register pid m).1)
  lock :
      {fs : List ℕ} {i : ℕ}
      → can_acquire me (m.heap i) ≡ true
      → Move pid me m fs (registered i) (acquire me i m) fs (acquired i)
  begin :
      {fs : List ℕ} {i : ℕ}
      → can_hold i m ≡ true
      → Move pid me m fs (acquired i) (hold i m) (i ∷ fs) idle
  fail :
      {fs : List ℕ} {i : ℕ}
      → (m.heap i).depth ≡ 0
      → Move pid me m fs (acquired i) (release i m) fs (released i)
  end : {fs : List ℕ} {i : ℕ} → Move pid me m (i ∷ fs) idle (unhold i m) fs (leaving i)
  unlock : {fs : List ℕ} {i : ℕ} → Move pid me m fs (leaving i) (release i m) fs (released i)
  forget : {fs : List ℕ} {i : ℕ} → Move pid me m fs (released i) (unregister i m) fs idle

-- The threads below `n`, and the other processes, which take the lock of the file and give it back.
pub record Thread : Type 0 where
  pub bodies : List ℕ
  pub pc : Pc

abbrev pub update : ℕ → Thread → (ℕ → Thread) → ℕ → Thread
update i x th j = if i == j then x else th j

pub record System : Type 0 where
  pub shared : Shared
  pub threads : ℕ → Thread

pub data Step (n pid : ℕ) (s : System) : System → Type 0 where
  moves :
      (me : ℕ) {m : Shared} {fs : List ℕ} {pc : Pc}
      → me < n
      → Move pid me s.shared (s.threads me).bodies (s.threads me).pc m fs pc
      → Step n pid s
          (record { shared = m; threads = update me (record { bodies = fs; pc = pc }) s.threads })
  takes :
      s.shared.file_lock ≡ free
      → Step n pid s (record s { shared = record s.shared { file_lock = theirs } })
  gives :
      s.shared.file_lock ≡ theirs
      → Step n pid s (record s { shared = record s.shared { file_lock = free } })

-- The process at its start: nothing in the registry, and every thread outside.
abbrev pub start : ℕ → System
start pid = record {
  shared = record { pid = pid; entry = none; next = 0; heap = λ _. new_state; file_lock = free };
  threads = λ _. record { bodies = []; pc = idle };
}

pub data Reach (n pid : ℕ) : System → Type 0 where
  begins : Reach n pid (start pid)
  later : {s t : System} → Reach n pid s → Step n pid s t → Reach n pid t
