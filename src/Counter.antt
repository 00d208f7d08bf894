-- ===== src/Counter.antt =====
-- Posix_shared_memory/mman_test.cpp, `test_mman_1_1`, `test_mman_1_2` and `test_mman_2_1`: parent and
-- child raise one number in shared memory under a semaphore, Count_Num times each. The three differ
-- in how memory and semaphore are made. The increment is a load and a store.
pub mod Total
mod Tests
use unix_ipc_note.Base.{ℕ, suc, ◌+◌, ◌<◌, ◌≡◌}

abbrev pub count_num : ℕ
count_num = 10000

-- Where a process stands in its loop.
pub data Place : Type 0 where
  at_wait : Place  -- before Sem_wait(mutex)
  loading : Place  -- before the number is read
  storing : ℕ → Place  -- before it is written, one more than what was read
  posting : Place  -- before Sem_post(mutex)

pub record Process : Type 0 where
  pub place : Place
  pub i : ℕ

pub record Shared : Type 0 where
  pub mutex : ℕ
  pub count : ℕ

-- The loop of one process.
pub data Increment (m : Shared) : Process → Shared → Process → Type 0 where
  take :
      {i e : ℕ}
      → i < count_num
      → m.mutex ≡ suc e
      → Increment m
          (record { place = at_wait; i = i })
          (record m { mutex = e })
          (record { place = loading; i = i })
  load :
      {i : ℕ}
      → Increment m
          (record { place = loading; i = i })
          m
          (record { place = storing m.count; i = i })
  store :
      {i v : ℕ}
      → Increment m
          (record { place = storing v; i = i })
          (record m { count = v + 1 })
          (record { place = posting; i = i })
  post :
      {i : ℕ}
      → Increment m
          (record { place = posting; i = i })
          (record m { mutex = m.mutex + 1 })
          (record { place = at_wait; i = i + 1 })

pub record System : Type 0 where
  pub mem : Shared
  pub parent : Process
  pub child : Process

pub data Step (s : System) : System → Type 0 where
  in_parent :
      {m : Shared} {p : Process}
      → Increment s.mem s.parent m p
      → Step s (record { mem = m; parent = p; child = s.child })
  in_child :
      {m : Shared} {p : Process}
      → Increment s.mem s.child m p
      → Step s (record { mem = m; parent = s.parent; child = p })

-- Behind the fork.
abbrev pub start : System
start = record {
  mem = record { mutex = 1; count = 0 };
  parent = record { place = at_wait; i = 0 };
  child = record { place = at_wait; i = 0 };
}

pub data Reach : System → Type 0 where
  here : Reach start
  next : {s t : System} → Reach s → Step s t → Reach t
