-- ===== src/System.antt =====
-- What the wrappers see of the kernel: results of system calls, in the order in which a call meets
-- them, and how a call of a wrapper ends. The kernel itself is no part of the repository: a model
-- takes the list of its answers as an argument.
use unix_ipc_note.Base.{ℕ, List, ℤ}

-- errno, as far as the wrappers tell its values apart.
pub data Errno : Type 0 where
  eintr eagain econnreset echild enomsg eexist etimedout : Errno
  other : ℕ → Errno

-- How a call ends: it returns, the process exits with a status (in `err_sys` or `err_quit`), or the
-- answers run out, so that the call still waits in the kernel.
pub data Outcome {ℓ} (A : Type ℓ) : Type ℓ where
  returned : A → Outcome A
  exited : ℤ → Outcome A
  blocked : Outcome A

-- Answers to read(2): the bytes (none at the end of the file), or an error.
pub data ReadAnswer : Type 0 where
  got : List ℕ → ReadAnswer
  read_failed : Errno → ReadAnswer

-- Answers to write(2): how many bytes went out, or an error.
pub data WriteAnswer : Type 0 where
  wrote : ℕ → WriteAnswer
  write_failed : Errno → WriteAnswer

-- What a call gives back that gives back nothing.
abbrev pub Nothing : Type 0
Nothing = Unit

-- The answer to a system call that does or gives back something else.
pub data Answer {ℓ} (A : Type ℓ) : Type ℓ where
  done : A → Answer A
  failed : Errno → Answer A
