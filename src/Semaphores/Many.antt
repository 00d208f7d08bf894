-- ===== src/Semaphores/Many.antt =====
-- Posix_semaphore/semaphore_test.cpp, namespace `shared_unnamed_02`: any number of producers and consumers
-- over a ring of ten places. The threads of a kind differ in their counters of rounds only, which no test
-- reads: the state has the number of threads at each call. A step is one semaphore operation with the code
-- up to the next one; what is shared is read and written under the mutex.
pub mod Invariant
pub mod Items
pub mod Counted
pub mod Turns
mod Tests
use unix_ipc_note.Base.{
  ℕ, suc, ◌+◌, ◌-◌, ◌%◌, ◌<◌, ◌≤◌, ◌≡◌, ◌&&◌, not, List, [], ◌∷◌, ◌++◌, ℤ, pos, minus_one, update,
  int_eq, ltb, if◌then◌else◌,
}
use unix_ipc_note.Semaphores.{buff_len, items_num}

-- How many producers stand before each of their calls.
pub record Producers : Type 0 where
  pub at_slot : ℕ  -- Sem_wait(&shared.empty_num)
  pub at_mutex : ℕ  -- Sem_wait(&shared.mutex)
  pub stored : ℕ  -- Sem_post(&shared.mutex), behind the store
  pub posting : ℕ  -- Sem_post(&shared.stored_num), behind the mutex
  pub last_stored : ℕ  -- Sem_post(&shared.stored_num), with nothing left to produce
  pub last_empty : ℕ  -- Sem_post(&shared.empty_num)
  pub last_mutex : ℕ  -- Sem_post(&shared.mutex)
  pub ended : ℕ

-- How many consumers stand before each of theirs.
pub record Consumers : Type 0 where
  pub at_slot : ℕ  -- Sem_wait(&shared.stored_num)
  pub at_mutex : ℕ  -- Sem_wait(&shared.mutex)
  pub taken : ℕ  -- Sem_post(&shared.mutex), behind the access to the ring
  pub posting : ℕ  -- Sem_post(&shared.empty_num)
  pub last_stored : ℕ  -- Sem_post(&shared.stored_num), with nothing left to consume
  pub last_mutex : ℕ  -- Sem_post(&shared.mutex)
  pub ended : ℕ

-- The members of `shared`, the semaphores by their values; `out` are the values that the consumers have
-- logged, in order.
pub record Shared : Type 0 where
  pub buff : ℕ → ℤ
  pub total_produced : ℕ
  pub total_consumed : ℕ
  pub mutex : ℕ
  pub empty_num : ℕ
  pub stored_num : ℕ
  pub out : List ℤ

pub record System : Type 0 where
  pub mem : Shared
  pub producers : Producers
  pub consumers : Consumers

-- shared.buff[shared.total_produced % buff_len] = shared.total_produced; shared.total_produced++;
abbrev pub store : Shared → Shared
store m = record m {
  buff = update m.buff (m.total_produced % buff_len) (pos m.total_produced);
  total_produced = m.total_produced + 1;
}

-- The access to the ring in `consume`, under its test.
abbrev pub take_out : Shared → Shared
take_out m =
    let val = m.total_consumed % buff_len in
    if ltb m.total_consumed m.total_produced && not (int_eq (m.buff val) minus_one)
    then record m {
      buff = update m.buff val minus_one;
      total_consumed = m.total_consumed + 1;
      out = m.out ++ m.buff val ∷ [];
    }
    else m

-- The calls of `produce`. A semaphore operation that waits needs a positive value.
pub data Produce (m : Shared) (p : Producers) : Shared → Producers → Type 0 where
  take_empty :
      0 < p.at_slot
      → 0 < m.empty_num
      → Produce m p
          (record m { empty_num = m.empty_num - 1 })
          (record p { at_slot = p.at_slot - 1; at_mutex = p.at_mutex + 1 })
  lock :
      0 < p.at_mutex
      → 0 < m.mutex
      → m.total_produced < items_num
      → Produce m p
          (store (record m { mutex = m.mutex - 1 }))
          (record p { at_mutex = p.at_mutex - 1; stored = p.stored + 1 })
  lock_last :
      0 < p.at_mutex
      → 0 < m.mutex
      → items_num ≤ m.total_produced
      → Produce m p
          (record m { mutex = m.mutex - 1 })
          (record p { at_mutex = p.at_mutex - 1; last_stored = p.last_stored + 1 })
  unlock :
      0 < p.stored
      → Produce m p
          (record m { mutex = m.mutex + 1 })
          (record p { stored = p.stored - 1; posting = p.posting + 1 })
  post_stored :
      0 < p.posting
      → Produce m p
          (record m { stored_num = m.stored_num + 1 })
          (record p { posting = p.posting - 1; at_slot = p.at_slot + 1 })
  post_last_stored :
      0 < p.last_stored
      → Produce m p
          (record m { stored_num = m.stored_num + 1 })
          (record p { last_stored = p.last_stored - 1; last_empty = p.last_empty + 1 })
  post_last_empty :
      0 < p.last_empty
      → Produce m p
          (record m { empty_num = m.empty_num + 1 })
          (record p { last_empty = p.last_empty - 1; last_mutex = p.last_mutex + 1 })
  unlock_last :
      0 < p.last_mutex
      → Produce m p
          (record m { mutex = m.mutex + 1 })
          (record p { last_mutex = p.last_mutex - 1; ended = p.ended + 1 })

-- The calls of `consume`.
pub data Consume (m : Shared) (c : Consumers) : Shared → Consumers → Type 0 where
  take_stored :
      0 < c.at_slot
      → 0 < m.stored_num
      → Consume m c
          (record m { stored_num = m.stored_num - 1 })
          (record c { at_slot = c.at_slot - 1; at_mutex = c.at_mutex + 1 })
  lock :
      0 < c.at_mutex
      → 0 < m.mutex
      → m.total_consumed < items_num
      → Consume m c
          (take_out (record m { mutex = m.mutex - 1 }))
          (record c { at_mutex = c.at_mutex - 1; taken = c.taken + 1 })
  lock_last :
      0 < c.at_mutex
      → 0 < m.mutex
      → items_num ≤ m.total_consumed
      → Consume m c
          (record m { mutex = m.mutex - 1 })
          (record c { at_mutex = c.at_mutex - 1; last_stored = c.last_stored + 1 })
  unlock :
      0 < c.taken
      → Consume m c
          (record m { mutex = m.mutex + 1 })
          (record c { taken = c.taken - 1; posting = c.posting + 1 })
  post_empty :
      0 < c.posting
      → Consume m c
          (record m { empty_num = m.empty_num + 1 })
          (record c { posting = c.posting - 1; at_slot = c.at_slot + 1 })
  post_last_stored :
      0 < c.last_stored
      → Consume m c
          (record m { stored_num = m.stored_num + 1 })
          (record c { last_stored = c.last_stored - 1; last_mutex = c.last_mutex + 1 })
  unlock_last :
      0 < c.last_mutex
      → Consume m c
          (record m { mutex = m.mutex + 1 })
          (record c { last_mutex = c.last_mutex - 1; ended = c.ended + 1 })

pub data Step (s : System) : System → Type 0 where
  produce :
      {m : Shared} {p : Producers}
      → Produce s.mem s.producers m p
      → Step s (record { mem = m; producers = p; consumers = s.consumers })
  consume :
      {m : Shared} {c : Consumers}
      → Consume s.mem s.consumers m c
      → Step s (record { mem = m; producers = s.producers; consumers = c })

-- The semaphores 1, buff_len and 0, everything else 0, and so many threads created.
abbrev pub start : ℕ → ℕ → System
start producers consumers = record {
  mem = record {
    buff = λ j. pos 0;
    total_produced = 0;
    total_consumed = 0;
    mutex = 1;
    empty_num = buff_len;
    stored_num = 0;
    out = [];
  };
  producers = record {
    at_slot = producers;
    at_mutex = 0;
    stored = 0;
    posting = 0;
    last_stored = 0;
    last_empty = 0;
    last_mutex = 0;
    ended = 0;
  };
  consumers = record {
    at_slot = consumers;
    at_mutex = 0;
    taken = 0;
    posting = 0;
    last_stored = 0;
    last_mutex = 0;
    ended = 0;
  };
}

-- What can be reached in `i` steps.
pub data Reach (producers consumers : ℕ) : ℕ → System → Type 0 where
  here : Reach producers consumers 0 (start producers consumers)
  next :
      {i : ℕ} {s t : System}
      → Reach producers consumers i s
      → Step s t
      → Reach producers consumers (suc i) t
