-- ===== src/Atomics.antt =====
-- thread_C++/atomic/02_inc_func_non_atomic.cpp, 03_inc_func_atomic.cpp and
-- 04_inc_func_atomic_optimal.cpp: ten threads add to one counter, a hundred each. A step is one access
-- to the counter; `++counter` is one such step on an atomic counter, and two on an int.
pub mod Totals
mod Tests
use unix_ipc_note.Base.{ℕ, ◌+◌, ◌<◌, ◌≡◌, Option, none, some, Bool, true, false, update}

abbrev pub thread_num : ℕ
thread_num = 10

abbrev pub round_num : ℕ
round_num = 100

-- The counter, and the rounds that each thread has behind it.
pub record Counting : Type 0 where
  pub counter : ℕ
  pub rounds : ℕ → ℕ

abbrev pub zero_counting : Counting
zero_counting = record { counter = 0; rounds = λ _. 0 }

-- 03: ++counter on the atomic.
pub data AtomicStep (s : Counting) : Counting → Type 0 where
  increment :
      (i : ℕ)
      → i < thread_num
      → s.rounds i < round_num
      → AtomicStep s
          (record { counter = s.counter + 1; rounds = update s.rounds i (s.rounds i + 1) })

-- 02: ++counter on the int, read and then written; `held` is what each thread has read.
pub record Racing : Type 0 where
  pub counting : Counting
  pub held : ℕ → Option ℕ

pub data RacingStep (s : Racing) : Racing → Type 0 where
  read :
      (i : ℕ)
      → i < thread_num
      → s.counting.rounds i < round_num
      → s.held i ≡ none
      → RacingStep s (record s { held = update s.held i (some s.counting.counter) })
  write :
      (i : ℕ) {v : ℕ}
      → i < thread_num
      → s.held i ≡ some v
      → RacingStep s (record {
        counting = record {
          counter = v + 1;
          rounds = update s.counting.rounds i (s.counting.rounds i + 1);
        };
        held = update s.held i none;
      })

-- 04: the rounds add to `result`, and counter += result comes at the end, once.
pub record Local : Type 0 where
  pub counting : Counting
  pub added : ℕ → ℕ

pub data LocalStep (s : Local) : Local → Type 0 where
  increment :
      (i : ℕ)
      → i < thread_num
      → s.counting.rounds i < round_num
      → LocalStep s (record s {
        counting = record (s.counting) {
          rounds = update s.counting.rounds i (s.counting.rounds i + 1);
        };
      })
  add :
      (i : ℕ)
      → i < thread_num
      → s.counting.rounds i ≡ round_num
      → s.added i ≡ 0
      → LocalStep s (record {
        counting = record (s.counting) { counter = s.counting.counter + s.counting.rounds i };
        added = update s.added i (s.counting.rounds i);
      })

pub data AtomicReach : Counting → Type 0 where
  here : AtomicReach zero_counting
  next : {s t : Counting} → AtomicReach s → AtomicStep s t → AtomicReach t

pub data RacingReach : Racing → Type 0 where
  here : RacingReach (record { counting = zero_counting; held = λ _. none })
  next : {s t : Racing} → RacingReach s → RacingStep s t → RacingReach t

pub data LocalReach : Local → Type 0 where
  here : LocalReach (record { counting = zero_counting; added = λ _. 0 })
  next : {s t : Local} → LocalReach s → LocalStep s t → LocalReach t
