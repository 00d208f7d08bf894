-- ===== src/ThreadPool.antt =====
-- thread_C++/thread_pool/thread_pool.cpp: `n` workers that run `funcThread_Control`
-- over one task list, and the client that calls `addTask_Control` and `stopAllThread_Control`. One
-- step is one lock operation or one access to the shared members. A task is its pointer, a number.
pub mod Invariant
pub mod Hang
mod Tests
use unix_ipc_note.Base.{ℕ, ◌<◌, ◌≡◌, ◌≢◌, Bool, true, false, ◌&&◌, not, List, [], ◌∷◌, ◌++◌, update}

-- Who holds lock_Mutex_Control.
pub data Owner : Type 0 where
  nobody : Owner
  client : Owner
  worker : ℕ → Owner

-- The static members of ThreadPool_Control, with two histories: the tasks that were added and those
-- that were run, oldest first.
pub record Shared : Type 0 where
  pub owner : Owner
  pub tasks : List ℕ  -- tasklist_Control
  pub exit : Bool  -- exit_Thread_Control
  pub added : List ℕ
  pub ran : List ℕ

-- Where a worker stands in `funcThread_Control`.
pub data Pc : Type 0 where
  locking : Pc  -- before pthread_mutex_lock
  testing : Pc  -- at the test of the inner while
  entering_wait : Pc  -- the test held; before pthread_cond_wait
  sleeping : Pc  -- in pthread_cond_wait, the mutex released
  woken : Pc  -- in pthread_cond_wait, on the way to the mutex
  checking : Pc  -- at `if (exit_Thread_Control)`
  taking : Pc  -- at `tasklist_Control.begin()`
  unlocking : Pc  -- before pthread_mutex_unlock at the end of the loop
  leaving : Pc  -- before the unlock of the exit branch
  finished : Pc  -- after pthread_exit
  crashed : Pc  -- after `*tasklist_Control.begin()` on an empty list

pub is_empty : List ℕ → Bool
is_empty [] = true
is_empty (t ∷ ts) = false

-- tasklist_Control.empty() && !exit_Thread_Control
abbrev pub must_wait : Shared → Bool
must_wait m = is_empty m.tasks && not m.exit

-- One step of worker `i`. Only another thread takes it out of `sleeping`.
pub data Move (i : ℕ) (m : Shared) : Pc → Shared → Pc → Type 0 where
  lock : m.owner ≡ nobody → Move i m locking (record m { owner = worker i }) testing
  wait : must_wait m ≡ true → Move i m testing m entering_wait
  go : must_wait m ≡ false → Move i m testing m checking
  sleep : Move i m entering_wait (record m { owner = nobody }) sleeping
  relock : m.owner ≡ nobody → Move i m woken (record m { owner = worker i }) testing
  leave : m.exit ≡ true → Move i m checking m leaving
  stay : m.exit ≡ false → Move i m checking m taking
  take :
      {t : ℕ} {ts : List ℕ}
      → m.tasks ≡ t ∷ ts
      → Move i m taking (record m { tasks = ts; ran = m.ran ++ t ∷ [] }) unlocking
  crash : m.tasks ≡ [] → Move i m taking m crashed
  unlock : Move i m unlocking (record m { owner = nobody }) locking
  finish : Move i m leaving (record m { owner = nobody }) finished

-- Where the client stands.
pub data Client : Type 0 where
  idle : Client
  adding : ℕ → Client  -- in `addTask_Control`, before the lock
  pushing : ℕ → Client  -- before push_back
  add_unlocking : Client
  signalling : Client  -- before pthread_cond_signal
  stopping : Client  -- in `stopAllThread_Control`, behind its first test
  broadcasting : Client  -- the flag is set; before pthread_cond_broadcast
  joining : Client  -- in the loop of pthread_join

-- One step of the client that concerns the shared members alone.
pub data ClientMove (m : Shared) : Client → Shared → Client → Type 0 where
  call_add : (t : ℕ) → ClientMove m idle m (adding t)
  add_lock :
      {t : ℕ} → m.owner ≡ nobody → ClientMove m (adding t) (record m { owner = client }) (pushing t)
  push :
      {t : ℕ}
      → ClientMove m
          (pushing t)
          (record m { tasks = m.tasks ++ t ∷ []; added = m.added ++ t ∷ [] })
          add_unlocking
  add_unlock : ClientMove m add_unlocking (record m { owner = nobody }) signalling
  stop_again : m.exit ≡ true → ClientMove m idle m idle  -- return -1
  stop : m.exit ≡ false → ClientMove m idle m stopping
  set_exit : ClientMove m stopping (record m { exit = true }) broadcasting

pub record System : Type 0 where
  pub mem : Shared
  pub caller : Client
  pub pc : ℕ → Pc

-- pthread_cond_broadcast, seen from one worker.
abbrev pub wake : Pc → Pc
wake sleeping = woken
wake locking = locking
wake testing = testing
wake entering_wait = entering_wait
wake woken = woken
wake checking = checking
wake taking = taking
wake unlocking = unlocking
wake leaving = leaving
wake finished = finished
wake crashed = crashed

-- One step of the whole, with `n` workers. An index from `n` on names no worker.
pub data Step (n : ℕ) (s : System) : System → Type 0 where
  work :
      (i : ℕ) {m : Shared} {p : Pc}
      → i < n
      → Move i s.mem (s.pc i) m p
      → Step n s (record { mem = m; caller = s.caller; pc = update s.pc i p })
  call :
      {m : Shared} {c : Client}
      → ClientMove s.mem s.caller m c
      → Step n s (record { mem = m; caller = c; pc = s.pc })
  signal :
      (i : ℕ)
      → s.caller ≡ signalling
      → s.pc i ≡ sleeping
      → Step n s (record { mem = s.mem; caller = idle; pc = update s.pc i woken })
  signal_none :
      s.caller ≡ signalling
      → ((i : ℕ) → i < n → s.pc i ≢ sleeping)
      → Step n s (record { mem = s.mem; caller = idle; pc = s.pc })
  broadcast :
      s.caller ≡ broadcasting
      → Step n s (record { mem = s.mem; caller = joining; pc = λ i. wake (s.pc i) })
  joined :
      s.caller ≡ joining
      → ((i : ℕ) → i < n → s.pc i ≡ finished)
      → Step n s (record { mem = s.mem; caller = idle; pc = s.pc })

-- POSIX lets pthread_cond_wait return with no signal.
pub data Spurious (s : System) : System → Type 0 where
  rouse :
      (i : ℕ)
      → s.pc i ≡ sleeping
      → Spurious s (record { mem = s.mem; caller = s.caller; pc = update s.pc i woken })

-- After `create_Thread_Control`.
abbrev pub start : System
start = record {
  mem = record { owner = nobody; tasks = []; exit = false; added = []; ran = [] };
  caller = idle;
  pc = λ _. locking;
}

-- What can be reached, spurious wake-ups included.
pub data Reach (n : ℕ) : System → Type 0 where
  here : Reach n start
  next : {s t : System} → Reach n s → Step n s t → Reach n t
  rouse_next : {s t : System} → Reach n s → Spurious s t → Reach n t

-- What follows on a state with no spurious wake-up.
pub data Later (n : ℕ) (s : System) : System → Type 0 where
  now : Later n s s
  then_step : {t u : System} → Later n s t → Step n t u → Later n s u
