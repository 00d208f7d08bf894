-- ===== src/Wrappers/Plain.antt =====
-- The rest of the wrappers that only test the result of their call: process_signal/wrap_signal.cpp,
-- common_lib/wrap_stdio.cpp, common_lib/wrap_ioctl.cpp, and those of Posix_shared_memory/mman_test.cpp.
use unix_ipc_note.Base.{ℕ, List, minus_one}
use unix_ipc_note.System.{Nothing, Answer, done, failed, Outcome, returned, exited}
use unix_ipc_note.Wrappers.{check}

pub Sigemptyset : Answer (List ℕ) → Outcome (List ℕ)
Sigemptyset a = check a

pub Sigfillset : Answer (List ℕ) → Outcome (List ℕ)
Sigfillset a = check a

pub Sigdelset : Answer (List ℕ) → Outcome (List ℕ)
Sigdelset a = check a

pub Sigpending : Answer (List ℕ) → Outcome (List ℕ)
Sigpending a = check a

pub Sigwaitinfo : Answer (List ℕ) → Outcome (List ℕ)
Sigwaitinfo a = check a

pub Fopen : Answer ℕ → Outcome ℕ
Fopen a = check a

pub Fdopen : Answer ℕ → Outcome ℕ
Fdopen a = check a

pub Fclose : Answer Nothing → Outcome Nothing
Fclose a = check a

pub Fputs : Answer Nothing → Outcome Nothing
Fputs a = check a

pub Mmap : Answer ℕ → Outcome ℕ
Mmap a = check a

pub Munmap : Answer Nothing → Outcome Nothing
Munmap a = check a

pub Shm_open : Answer ℕ → Outcome ℕ
Shm_open a = check a

pub Shm_unlink : Answer Nothing → Outcome Nothing
Shm_unlink a = check a

pub Ftruncate : Answer Nothing → Outcome Nothing
Ftruncate a = check a

-- A failed ioctl(2) closes the descriptor; the process ends whether or not that works.
pub IOctl : Answer ℕ → Answer Nothing → Outcome ℕ
IOctl (done n) closed = returned n
IOctl (failed e) (failed e') = exited minus_one
IOctl (failed e) (done u) = exited minus_one
