-- ===== src/MessageRing.antt =====
-- Posix_shared_memory/mman_test.cpp, `test_mman_3_producer_client` and `test_mman_3_consumer_service`:
-- one client puts messages into a ring of sixteen places in shared memory and counts those for which
-- there is no room, and the service prints them. A message is the client's counter `i`, which its text
-- shows; the text at msg_offset[index] is that of place `index`.
pub mod Invariant
pub mod Delivery
mod Tests
use unix_ipc_note.Base.{ℕ, zero, suc, ◌+◌, ◌*◌, ◌<◌, ◌≡◌, update, leb, if◌then◌else◌}

abbrev pub message_num : ℕ
message_num = 16

-- MESSAGE_num * 100
abbrev pub loop_num : ℕ
loop_num = 1600

-- The members of shm_messages, the semaphores by their values, with two histories: the messages that
-- the client has stored and those that the service has printed, by number.
pub record Shared : Type 0 where
  pub messages : ℕ → ℕ
  pub mutex : ℕ
  pub empty_num : ℕ
  pub stored_num : ℕ
  pub overflow : ℕ
  pub stored : ℕ → ℕ
  pub printed : ℕ → ℕ

-- Where the client stands.
pub data Sending : Type 0 where
  trying : Sending  -- at Sem_trywait(empty_num)
  raising : Sending  -- before overflow++
  locking : Sending
  storing : Sending  -- before strcpy
  unlocking : Sending
  posting : Sending

-- `round` numbers the messages that the client has stored.
pub record Client : Type 0 where
  pub place : Sending
  pub i : ℕ
  pub index : ℕ
  pub round : ℕ

-- Where the service stands.
pub data Printing : Type 0 where
  waiting : Printing  -- before Sem_wait(stored_num)
  locking : Printing
  showing : Printing  -- before the message is printed
  unlocking : Printing
  posting : Printing

pub record Service : Type 0 where
  pub place : Printing
  pub index : ℕ
  pub round : ℕ

-- if (++index >= MESSAGE_num) index = 0;
abbrev pub next_index : ℕ → ℕ
next_index index = if leb message_num (index + 1) then 0 else index + 1

-- The loop of the client. Nobody else raises the overflow counter, so its own semaphore is left out.
pub data Send (m : Shared) : Client → Shared → Client → Type 0 where
  try :
      {i x n e : ℕ}
      → i < loop_num
      → m.empty_num ≡ suc e
      → Send m
          (record { place = trying; i = i; index = x; round = n })
          (record m { empty_num = e })
          (record { place = locking; i = i; index = x; round = n })
  full :
      {i x n : ℕ}
      → i < loop_num
      → m.empty_num ≡ 0
      → Send m
          (record { place = trying; i = i; index = x; round = n })
          m
          (record { place = raising; i = i; index = x; round = n })
  raise :
      {i x n : ℕ}
      → Send m
          (record { place = raising; i = i; index = x; round = n })
          (record m { overflow = m.overflow + 1 })
          (record { place = trying; i = i + 1; index = x; round = n })
  lock :
      {i x n : ℕ}
      → m.mutex ≡ 1
      → Send m
          (record { place = locking; i = i; index = x; round = n })
          (record m { mutex = 0 })
          (record { place = storing; i = i; index = x; round = n })
  store :
      {i x n : ℕ}
      → Send m
          (record { place = storing; i = i; index = x; round = n })
          (record m { messages = update m.messages x i; stored = update m.stored n i })
          (record { place = unlocking; i = i; index = x; round = n })
  unlock :
      {i x n : ℕ}
      → Send m
          (record { place = unlocking; i = i; index = x; round = n })
          (record m { mutex = m.mutex + 1 })
          (record { place = posting; i = i; index = x; round = n })
  post :
      {i x n : ℕ}
      → Send m
          (record { place = posting; i = i; index = x; round = n })
          (record m { stored_num = m.stored_num + 1 })
          (record { place = trying; i = i + 1; index = next_index x; round = n + 1 })

-- The loop of the service; what it does with the overflow counter is a message only.
pub data Print (m : Shared) : Service → Shared → Service → Type 0 where
  wait :
      {x n e : ℕ}
      → m.stored_num ≡ suc e
      → Print m
          (record { place = waiting; index = x; round = n })
          (record m { stored_num = e })
          (record { place = locking; index = x; round = n })
  lock :
      {x n : ℕ}
      → m.mutex ≡ 1
      → Print m
          (record { place = locking; index = x; round = n })
          (record m { mutex = 0 })
          (record { place = showing; index = x; round = n })
  show :
      {x n : ℕ}
      → Print m
          (record { place = showing; index = x; round = n })
          (record m { printed = update m.printed n (m.messages x) })
          (record { place = unlocking; index = x; round = n })
  unlock :
      {x n : ℕ}
      → Print m
          (record { place = unlocking; index = x; round = n })
          (record m { mutex = m.mutex + 1 })
          (record { place = posting; index = x; round = n })
  post :
      {x n : ℕ}
      → Print m
          (record { place = posting; index = x; round = n })
          (record m { empty_num = m.empty_num + 1 })
          (record { place = waiting; index = next_index x; round = n + 1 })

pub record System : Type 0 where
  pub mem : Shared
  pub client : Client
  pub service : Service

pub data Step (s : System) : System → Type 0 where
  send :
      {m : Shared} {c : Client}
      → Send s.mem s.client m c
      → Step s (record { mem = m; client = c; service = s.service })
  print :
      {m : Shared} {v : Service}
      → Print s.mem s.service m v
      → Step s (record { mem = m; client = s.client; service = v })

-- Behind bzero, the offsets and the semaphores.
abbrev pub start : System
start = record {
  mem = record {
    messages = λ _. 0;
    mutex = 1;
    empty_num = message_num;
    stored_num = 0;
    overflow = 0;
    stored = λ _. 0;
    printed = λ _. 0;
  };
  client = record { place = trying; i = 0; index = 0; round = 0 };
  service = record { place = waiting; index = 0; round = 0 };
}

pub data Reach : System → Type 0 where
  here : Reach start
  next : {s t : System} → Reach s → Step s t → Reach t
