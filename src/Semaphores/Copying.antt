-- ===== src/Semaphores/Copying.antt =====
-- Posix_semaphore/semaphore_test.cpp, namespace `shared_unnamed_buffer`: one thread reads a file into a ring of
-- ten buffers, the other logs them. A step is one semaphore operation, one `Read`, or one access to `n` with
-- the code up to the next call.
pub mod Invariant
pub mod FillSteps
pub mod LogSteps
pub mod Chunks
pub mod Progress
mod Tests
use unix_ipc_note.Base.{
  ℕ, zero, suc, ◌+◌, ◌-◌, ◌<◌, ◌≡◌, List, [], ◌∷◌, ◌++◌, ℤ, pos, negsuc, update, int_eq, leb,
  if◌then◌else◌,
}
use unix_ipc_note.System.{Outcome, returned, ReadAnswer}
use unix_ipc_note.UnixIo.{Reading, Read}
use unix_ipc_note.Broadcast.{maxline}
use unix_ipc_note.Semaphores.{buff_len}

-- An element of shared.buff.
pub record Slot : Type 0 where
  pub n : ℤ
  pub bytes : List ℕ

-- -10, the mark of the end of the file.
abbrev pub end_of_file : ℤ
end_of_file = negsuc 9

pub data Filler : Type 0 where
  waiting : Filler  -- before Sem_wait(&shared.empty_num)
  reading : Filler  -- before Read
  checking : Filler  -- before the test of shared.buff[num].n
  posting : Filler  -- before Sem_post(&shared.stored_num)
  last_posting : Filler  -- before the Sem_post in the test
  over : Filler

pub data Emptier : Type 0 where
  waiting : Emptier  -- before Sem_wait(&shared.stored_num)
  looking : Emptier  -- before the tests of shared.buff[num].n
  posting : Emptier  -- before Sem_post(&shared.empty_num)
  over : Emptier

-- `in_num` and `out_num` are the two variables `num`; `answers` is what the kernel has yet to answer to
-- read(2). `readings` are the results of Read and `out` what the consumer has logged, in order.
pub record System : Type 0 where
  pub buff : ℕ → Slot
  pub empty_num : ℕ
  pub stored_num : ℕ
  pub filler : Filler
  pub in_num : ℕ
  pub emptier : Emptier
  pub out_num : ℕ
  pub answers : List ReadAnswer
  pub readings : List Slot
  pub out : List Slot

-- if (++num >= buff_len) num = 0;
abbrev pub next_num : ℕ → ℕ
next_num num = if leb buff_len (num + 1) then 0 else num + 1

abbrev pub slot_of : Reading → Slot
slot_of r = record { n = r.value; bytes = r.buffer }

-- The test behind Read.
abbrev pub check : System → System
check s =
    let slot = s.buff s.in_num in
    if int_eq slot.n (pos 0)
    then record s {
      buff = update s.buff s.in_num (record slot { n = end_of_file });
      filler = last_posting;
    }
    else record s { in_num = next_num s.in_num; filler = posting }

-- The body of consume_out behind its wait.
abbrev pub look_at : System → System
look_at s =
    let slot = s.buff s.out_num in
    if int_eq slot.n end_of_file
    then record s { emptier = over }
    else if int_eq slot.n (pos 0)
    then record s { out_num = next_num s.out_num; emptier = posting }
    else record s {
      buff = update s.buff s.out_num (record slot { n = pos 0 });
      out = s.out ++ slot ∷ [];
      out_num = next_num s.out_num;
      emptier = posting;
    }

-- A Read that does not return leaves no step: its error ends the process, or it blocks.
pub data Step (s : System) : System → Type 0 where
  wait_empty :
      s.filler ≡ waiting
      → 0 < s.empty_num
      → Step s (record s { empty_num = s.empty_num - 1; filler = reading })
  read :
      {r : Reading}
      → s.filler ≡ reading
      → Read maxline 0 s.answers ≡ returned r
      → Step s (record s {
        buff = update s.buff s.in_num (slot_of r);
        filler = checking;
        answers = r.rest;
        readings = s.readings ++ slot_of r ∷ [];
      })
  test : s.filler ≡ checking → Step s (check s)
  post_stored :
      s.filler ≡ posting → Step s (record s { stored_num = s.stored_num + 1; filler = waiting })
  post_last :
      s.filler ≡ last_posting → Step s (record s { stored_num = s.stored_num + 1; filler = over })
  wait_stored :
      s.emptier ≡ waiting
      → 0 < s.stored_num
      → Step s (record s { stored_num = s.stored_num - 1; emptier = looking })
  look : s.emptier ≡ looking → Step s (look_at s)
  post_empty :
      s.emptier ≡ posting → Step s (record s { empty_num = s.empty_num + 1; emptier = waiting })

-- bzero(&shared, …), the semaphores buff_len and 0, and both threads created.
abbrev pub start : List ReadAnswer → System
start answers = record {
  buff = λ j. record { n = pos 0; bytes = [] };
  empty_num = buff_len;
  stored_num = 0;
  filler = waiting;
  in_num = 0;
  emptier = waiting;
  out_num = 0;
  answers = answers;
  readings = [];
  out = [];
}

pub data Reach (answers : List ReadAnswer) : System → Type 0 where
  here : Reach answers (start answers)
  next : {s t : System} → Reach answers s → Step s t → Reach answers t
