-- ===== src/Semaphores.antt =====
-- Posix_semaphore/semaphore_test.cpp, namespaces `shared_named_one` and `shared_unnamed_one`: one
-- producer and one consumer over a ring of ten places, kept apart by three semaphores. The two
-- namespaces differ in how the semaphores are made only. A step is one semaphore operation or one
-- access to the ring.
pub mod Many
pub mod Copying
pub mod Bounded
pub mod Progress
mod Tests
use unix_ipc_note.Base.{
  ℕ, zero, suc, ◌+◌, ◌-◌, ◌*◌, ◌%◌, ◌<◌, ◌≡◌, Bool, true, false, List, [], ◌∷◌, update, ◌==◌,
  if◌then◌else◌,
}

abbrev pub buff_len : ℕ
buff_len = 10

-- 90 + buff_len
abbrev pub items_num : ℕ
items_num = 100

-- Where a thread stands in the body of its loop.
pub data Place : Type 0 where
  at_slot : Place  -- before Sem_wait on empty_num (producer) or stored_num (consumer)
  at_mutex : Place  -- before Sem_wait(mutex)
  inside : Place  -- before the access to the ring
  leaving : Place  -- before Sem_post(mutex)
  posting : Place  -- before Sem_post on the other semaphore

-- A thread: its place and its counter `i`.
pub record Thread : Type 0 where
  pub place : Place
  pub i : ℕ

-- The members of `shared`, the semaphores by their values. `seen` is what the consumer has found in
-- the ring and `reported` what it has logged, the last first.
pub record Shared : Type 0 where
  pub buff : ℕ → ℕ
  pub mutex : ℕ
  pub empty_num : ℕ
  pub stored_num : ℕ
  pub seen : List ℕ
  pub reported : List ℕ

-- The loop of `produce`.
pub data Produce (m : Shared) : Thread → Shared → Thread → Type 0 where
  take_empty :
      {i e : ℕ}
      → i < items_num
      → m.empty_num ≡ suc e
      → Produce m
          (record { place = at_slot; i = i })
          (record m { empty_num = e })
          (record { place = at_mutex; i = i })
  lock :
      {i : ℕ}
      → m.mutex ≡ 1
      → Produce m
          (record { place = at_mutex; i = i })
          (record m { mutex = 0 })
          (record { place = inside; i = i })
  store :
      {i : ℕ}
      → Produce m
          (record { place = inside; i = i })
          (record m { buff = update m.buff (i % buff_len) i })
          (record { place = leaving; i = i })
  unlock :
      {i : ℕ}
      → Produce m
          (record { place = leaving; i = i })
          (record m { mutex = m.mutex + 1 })
          (record { place = posting; i = i })
  post_stored :
      {i : ℕ}
      → Produce m
          (record { place = posting; i = i })
          (record m { stored_num = m.stored_num + 1 })
          (record { place = at_slot; i = i + 1 })

-- What the consumer does with the place: buff[i % buff_len] != (i % buff_len) is logged.
abbrev pub look : ℕ → Shared → Shared
look i m =
    let v = m.buff (i % buff_len) in
    record m {
      seen = v ∷ m.seen;
      reported = if v == i % buff_len then m.reported else v ∷ m.reported;
    }

-- The loop of `consume`.
pub data Consume (m : Shared) : Thread → Shared → Thread → Type 0 where
  take_stored :
      {i e : ℕ}
      → i < items_num
      → m.stored_num ≡ suc e
      → Consume m
          (record { place = at_slot; i = i })
          (record m { stored_num = e })
          (record { place = at_mutex; i = i })
  lock :
      {i : ℕ}
      → m.mutex ≡ 1
      → Consume m
          (record { place = at_mutex; i = i })
          (record m { mutex = 0 })
          (record { place = inside; i = i })
  check :
      {i : ℕ}
      → Consume m (record { place = inside; i = i }) (look i m) (record { place = leaving; i = i })
  unlock :
      {i : ℕ}
      → Consume m
          (record { place = leaving; i = i })
          (record m { mutex = m.mutex + 1 })
          (record { place = posting; i = i })
  post_empty :
      {i : ℕ}
      → Consume m
          (record { place = posting; i = i })
          (record m { empty_num = m.empty_num + 1 })
          (record { place = at_slot; i = i + 1 })

pub record System : Type 0 where
  pub mem : Shared
  pub producer : Thread
  pub consumer : Thread

pub data Step (s : System) : System → Type 0 where
  produce :
      {m : Shared} {t : Thread}
      → Produce s.mem s.producer m t
      → Step s (record { mem = m; producer = t; consumer = s.consumer })
  consume :
      {m : Shared} {t : Thread}
      → Consume s.mem s.consumer m t
      → Step s (record { mem = m; producer = s.producer; consumer = t })

-- Both threads created, the semaphores 1, buff_len and 0, the ring as it is.
abbrev pub start : (ℕ → ℕ) → System
start buff = record {
  mem = record {
    buff = buff;
    mutex = 1;
    empty_num = buff_len;
    stored_num = 0;
    seen = [];
    reported = [];
  };
  producer = record { place = at_slot; i = 0 };
  consumer = record { place = at_slot; i = 0 };
}

-- What can be reached in `k` steps.
pub data Reach (buff : ℕ → ℕ) : ℕ → System → Type 0 where
  here : Reach buff 0 (start buff)
  next : {k : ℕ} {s t : System} → Reach buff k s → Step s t → Reach buff (suc k) t
