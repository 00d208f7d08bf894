-- ===== src/Processes/Ends.antt =====
-- What is said of an ended command.
use mathlib.Core.Path.{fun_ext}
use unix_ipc_note.Base.{
  ℕ, ◌+◌, ◌*◌, if◌then◌else◌, ◌<◌, ◌≡◌, refl, ◌≢◌, Bool, true, false, List, [], ◌∷◌, ℤ, arith,
}
use unix_ipc_note.Signals.{Handler, sigchld}
use unix_ipc_note.Processes.{
  Note, exec_failed, normal, abnormal, killed, Handlers, signal, system_shell,
}

abbrev pub tells_exec : List Note → Bool
tells_exec [] = false
tells_exec (exec_failed ∷ ns) = true
tells_exec (n ∷ ns) = tells_exec ns

-- How a command ends: with an exit code, or by a signal, with a core dump or without.
pub data Ending : Type 0 where
  exits : ℕ → Ending
  dies : ℕ → Bool → Ending

abbrev pub IsEnding : Ending → Type 0
IsEnding (exits code) = code < 256
IsEnding (dies sig core) = (0 < sig) × (sig < 127)

-- The number in which the kernel passes it on.
abbrev pub status_of : Ending → ℕ
status_of (exits code) = 256 * code
status_of (dies sig core) = sig + (if core then 128 else 0)

abbrev pub report : Ending → Note
report (exits code) = normal code
report (dies sig core) = killed sig

abbrev pub full_report : Ending → List Note
full_report (exits code) = normal code ∷ []
full_report (dies sig core) = abnormal 0 ∷ killed sig ∷ []

-- `system_shell` runs the command with the default handling of SIGCHLD and leaves all handlers as they
-- were.
pub system_shell_restores :
    (system : Handlers → ℤ) (hs : Handlers)
    → ((system_shell system hs).1 ≡ hs)
      × ((during : Handlers) × ((system_shell system hs).0 ≡ system during)
          × (during sigchld ≡ Handler.sig_dfl)
          × ((n : ℕ) → n ≢ sigchld → during n ≡ hs n))
unfolding system_shell signal
system_shell_restores system hs = (
  fun_ext (λ n. ground arith),
  ((signal sigchld Handler.sig_dfl hs).1, refl, refl, λ n ne. ground arith),
)
