-- ===== src/Errors/Tests.antt =====
-- The error reporters on concrete values.
use unix_ipc_note.Base.{
  ℕ, ◌≤◌, ◌<◌, false, none, List, [], ◌∷◌, length, replicate, length-replicate, negsuc, arith,
}
use unix_ipc_note.Errors.{Texts, Globals, Site, fill_buffer}
use unix_ipc_note.Errors.Buffer.{capacity, fill_buffer_overflow}

abbrev texts : Texts
texts = record {
  errno_text = λ n. b'e' ∷ [];
  h_errno_text = λ n. b'h' ∷ [];
  gai_text = λ v. b'g' ∷ [];
  time_hms = [];
}

-- errno is EPERM.
abbrev globals : Globals
globals = record { errno = 1; h_errno = 0; daemon_proc = false }

abbrev site : Site
site = record { code_file = none; code_func = none; code_line = 7 }

-- 4095 bytes; it stays shut, so that no tactic counts them.
long_message : List ℕ
long_message = replicate 4095 b'x'

length-long_message : 4095 ≤ length long_message
unfolding long_message
length-long_message = rw (length-replicate {A = ℕ} 4095 b'x') (omega arith)

fill_buffer_overflow_example : capacity < length (fill_buffer texts globals (negsuc 0) long_message)
fill_buffer_overflow_example =
    fill_buffer_overflow texts globals (negsuc 0) long_message length-long_message (omega arith)

-- "read()" fails: the report, then the exit.
abbrev call : List ℕ
call = b'r' ∷ []
