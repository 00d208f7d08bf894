-- ===== src/Processes.antt =====
-- process/process_create_fork_exec_system_popen.cpp: what the demonstrations say of an ended command,
-- and what `service_fork` and `system_shell` leave. The status of a command is the number that
-- system(3) and pclose(3) give back; its macros are those of sys/wait.h.
pub mod Ends
mod Tests
use unix_ipc_note.Base.{
  ℕ, ◌/◌, ◌%◌, Bool, true, false, not, ◌&&◌, Option, none, some, List, [], ◌∷◌, ◌++◌, ℤ, pos,
  negsuc, minus_one, ◌==◌, if◌then◌else◌,
}
use unix_ipc_note.System.{Outcome, returned, exited, blocked, Nothing, Answer, done, failed}
use unix_ipc_note.Signals.{Handler, sigchld}

pub wifexited : ℕ → Bool
wifexited status = status % 128 == 0

pub wexitstatus : ℕ → ℕ
wexitstatus status = (status / 256) % 256

pub wtermsig : ℕ → ℕ
wtermsig status = status % 128

pub wifsignaled : ℕ → Bool
unfolding wtermsig
wifsignaled status = not (wtermsig status == 0) && not (wtermsig status == 127)

pub wifstopped : ℕ → Bool
wifstopped status = status % 256 == 127

-- The lines that are printed.
pub data Note : Type 0 where
  no_command : Note
  command_error : ℤ → Note
  fork_failed : Note
  exec_failed : Note
  normal : ℕ → Note
  abnormal : ℕ → Note
  killed : ℕ → Note
  stopped : ℕ → Note

abbrev pub signal_note : ℕ → List Note
signal_note status =
    if wifsignaled status
    then killed (wtermsig status) ∷ []
    else (if wifstopped status then stopped (wexitstatus status) ∷ [] else [])

-- status == 127
abbrev pub is_127 : ℤ → Bool
is_127 (pos n) = n == 127
is_127 (negsuc n) = false

abbrev pub is_minus_one : ℤ → Bool
is_minus_one (pos n) = false
is_minus_one (negsuc n) = n == 0

-- process_system_debug, `none` being the null pointer; else the status of system(3).
pub process_system_debug : Option ℤ → List Note
process_system_debug none = no_command ∷ []
process_system_debug (some (negsuc n)) =
    command_error (negsuc n)
    ∷ (if is_minus_one (negsuc n)
        then fork_failed ∷ []
        else (if is_127 (negsuc n) then exec_failed ∷ [] else []))
process_system_debug (some (pos status)) =
    if wifexited status then normal (wexitstatus status) ∷ [] else signal_note status

-- unix_process_system, `none` being the empty command.
pub unix_process_system : Option ℤ → Outcome (List Note)
unix_process_system none = exited minus_one
unix_process_system (some (negsuc n)) = exited (negsuc n)
unix_process_system (some (pos status)) =
    if wifexited status
    then returned (normal (wexitstatus status) ∷ [])
    else returned (abnormal (wexitstatus status) ∷ signal_note status)

-- What a command that popen(3) has started does: its output, and pclose(3)'s value.
pub record Command : Type 0 where
  pub output : List ℕ
  pub closing : ℤ

-- while (fgets(buf, 2, fp)) printf("%s", buf): one byte a round; a 0 prints nothing.
pub print_loop : List ℕ → List ℕ
print_loop [] = []
print_loop (c ∷ cs) = let rest = print_loop cs in if c == 0 then rest else c ∷ rest

abbrev is_zero : ℤ → Bool
is_zero (pos n) = n == 0
is_zero (negsuc n) = false

-- What has been printed when process_popen_pclose_debug ends, and how it ends.
pub record Shown : Type 0 where
  pub notes : List Note
  pub text : List ℕ
  pub ending : Outcome Nothing

-- process_popen_pclose_debug: `none` is the null pointer, and `errno` its value behind popen(3), which
-- the function takes for a status.
pub process_popen_pclose_debug : Option (Answer Command) → ℕ → Shown
unfolding print_loop
process_popen_pclose_debug none errno = record {
  notes = no_command ∷ [];
  text = [];
  ending = returned tt;
}
process_popen_pclose_debug (some (failed e)) errno = record {
  notes = [];
  text = [];
  ending = exited (pos 1);
}
process_popen_pclose_debug (some (done c)) errno = record {
  notes = if wifexited errno then normal (wexitstatus errno) ∷ [] else signal_note errno;
  text = print_loop c.output;
  ending = if is_zero c.closing then returned tt else exited c.closing;
}

-- Which of the two sockets a process has open.
pub record Sockets : Type 0 where
  pub listening : Bool
  pub accepted : Bool

-- A close(2) that fails ends the process.
abbrev closed : Answer Nothing → Outcome Sockets → Outcome Sockets
closed (done u) next = next
closed (failed e) next = exited minus_one

-- service_fork, in the parent and in the child by the value of fork(2).
pub service_fork : Answer ℕ → Answer Nothing → Answer Nothing → Sockets → Outcome Sockets
service_fork (failed e) first second s = returned s
service_fork (done pid) first second s =
    if pid == 0
    then closed first (closed second (exited (pos 0)))
    else closed first (returned (record s { accepted = false }))

abbrev pub Handlers : Type 0
Handlers = ℕ → Handler

-- signal(signum, func): the handler before, and the new handlers.
pub signal : ℕ → Handler → Handlers → Handler × Handlers
signal signum func hs = (hs signum, λ n. if n == signum then func else hs n)

-- system_shell, given what system(3) gives back under the handlers at its call.
pub system_shell : (Handlers → ℤ) → Handlers → ℤ × Handlers
unfolding signal
system_shell system hs =
    let (old, during) = signal sigchld Handler.sig_dfl hs in
    let (_, after) = signal sigchld old during in (system during, after)
