-- ===== src/Condition.antt =====
-- thread_C++/thread_lock_condition.cpp: `mythread_cond_01_seed` raises num_global to 101 and signals each
-- time; `mythread_cond_02_seed` waits on the condition variable whenever it finds a multiple of ten. A
-- step is one lock operation or one access to num_global.
pub mod Wakeups
pub mod Progress
mod Tests
use unix_ipc_note.Base.{ℕ, zero, ◌+◌, ◌%◌, ◌<◌, ◌≤◌, ◌≡◌, ◌≢◌, Bool, true, false, ltb}

-- Who holds val_mutex.
pub data Holder : Type 0 where
  nobody : Holder
  raiser : Holder
  waiter : Holder

-- Where mythread_cond_01_seed stands. Behind its test it knows whether this round is its last.
pub data Raising : Type 0 where
  locking : Raising
  raising : Raising  -- before ++num_global
  signalling : Raising
  testing : Raising  -- at `if (num_global > 100)`
  unlocking : Bool → Raising
  over : Raising

-- Where mythread_cond_02_seed stands.
pub data Waiting : Type 0 where
  locking : Waiting
  testing : Waiting  -- at `if (num_global % 10 == 0)`
  sleeping : Waiting  -- in pthread_cond_wait
  woken : Waiting  -- in pthread_cond_wait, on the way to the mutex
  checking : Waiting  -- at `if (num_global > 100)`
  unlocking : Bool → Waiting
  over : Waiting

pub record System : Type 0 where
  pub holder : Holder
  pub num : ℕ
  pub first : Raising
  pub second : Waiting

-- pthread_cond_signal, with the one thread that waits.
abbrev pub wake : Waiting → Waiting
wake sleeping = woken
wake locking = locking
wake testing = testing
wake woken = woken
wake checking = checking
wake (unlocking last) = unlocking last
wake over = over

pub data Step (s : System) : System → Type 0 where
  raise_lock :
      s.first ≡ Raising.locking
      → s.holder ≡ nobody
      → Step s (record s { holder = raiser; first = raising })
  raise : s.first ≡ raising → Step s (record s { num = s.num + 1; first = signalling })
  signal :
      s.first ≡ signalling → Step s (record s { second = wake s.second; first = Raising.testing })
  raise_test :
      s.first ≡ Raising.testing → Step s (record s { first = Raising.unlocking (ltb 100 s.num) })
  raise_unlock :
      s.first ≡ Raising.unlocking false
      → Step s (record s { holder = nobody; first = Raising.locking })
  raise_end :
      s.first ≡ Raising.unlocking true → Step s (record s { holder = nobody; first = Raising.over })
  wait_lock :
      s.second ≡ Waiting.locking
      → s.holder ≡ nobody
      → Step s (record s { holder = waiter; second = Waiting.testing })
  wait :
      s.second ≡ Waiting.testing
      → s.num % 10 ≡ 0
      → Step s (record s { holder = nobody; second = sleeping })
  pass : s.second ≡ Waiting.testing → s.num % 10 ≢ 0 → Step s (record s { second = checking })
  relock :
      s.second ≡ woken
      → s.holder ≡ nobody
      → Step s (record s { holder = waiter; second = checking })
  wait_test : s.second ≡ checking → Step s (record s { second = Waiting.unlocking (ltb 100 s.num) })
  wait_unlock :
      s.second ≡ Waiting.unlocking false
      → Step s (record s { holder = nobody; second = Waiting.locking })
  wait_end :
      s.second ≡ Waiting.unlocking true
      → Step s (record s { holder = nobody; second = Waiting.over })

-- POSIX lets pthread_cond_wait return with no signal.
pub data Spurious (s : System) : System → Type 0 where
  rouse : s.second ≡ sleeping → Spurious s (record s { second = woken })

abbrev pub start : System
start = record { holder = nobody; num = 0; first = Raising.locking; second = Waiting.locking }

pub data Reach : System → Type 0 where
  here : Reach start
  next : {s t : System} → Reach s → Step s t → Reach t
  rouse_next : {s t : System} → Reach s → Spurious s t → Reach t
