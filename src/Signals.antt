-- ===== src/Signals.antt =====
-- process_signal/process_signal.cpp and realtime_signal.cpp: what the handler of SIGCHLD does with
-- ended children, how handlers are installed, and the demonstration that shields SIGINT. Sets and
-- actions of the process are kept by the kernel; a handler is a number.
pub mod Zombies
pub mod Install
pub mod Shield
mod Tests
use unix_ipc_note.Base.{
  ℕ, zero, suc, ◌+◌, ◌≡◌, Bool, true, false, not, ◌&&◌, ◌||◌, Option, none, some, List, [], ◌∷◌,
  ◌++◌, minus_one, ◌==◌, if◌then◌else◌,
}
use unix_ipc_note.System.{Outcome, returned, exited, Nothing, Answer, done, failed}

-- How a child ended, as the macros of sys/wait.h tell it.
pub data Status : Type 0 where
  normal : ℕ → Status
  signaled : ℕ → Status

pub record Child : Type 0 where
  pub pid : ℕ
  pub status : Status

-- The children that the handler has waited for, and those that are left as they were.
pub record Handled : Type 0 where
  pub reaped : List Child
  pub left : List Child

abbrev pub wifexited : Status → Bool
wifexited (normal c) = true
wifexited (signaled s) = false

-- sig_chld, on the ended children in the order in which waitpid(-1, …, WNOHANG) gives them: the loop
-- is left at the first that ended normally.
pub sig_chld : List Child → Handled
sig_chld [] = record { reaped = []; left = [] }
sig_chld (c ∷ cs) =
    let rest = sig_chld cs in
    if wifexited c.status
    then record { reaped = c ∷ []; left = cs }
    else record rest { reaped = c ∷ rest.reaped }

-- The parent: ended children that nobody has waited for, and whether SIGCHLD is pending.
pub record Parent : Type 0 where
  pub zombies : List Child
  pub pending : Bool

-- A child ends; or the pending signal is delivered, and the handler runs. Signals that come while one
-- is pending are that one.
pub data ParentStep (s : Parent) : Parent → Type 0 where
  ends : (c : Child) → ParentStep s (record { zombies = s.zombies ++ c ∷ []; pending = true })
  deliver :
      s.pending ≡ true
      → ParentStep s (record { zombies = (sig_chld s.zombies).left; pending = false })

pub data Handler : Type 0 where
  sig_dfl : Handler
  sig_ign : Handler
  function : ℕ → Handler

-- struct sigaction with its flags; the masks are empty.
pub record Action : Type 0 where
  pub handler : Handler
  pub sa_interrupt : Bool
  pub sa_restart : Bool
  pub sa_siginfo : Bool

abbrev pub Actions : Type 0
Actions = ℕ → Action

abbrev pub sigalrm : ℕ
sigalrm = 14

abbrev pub sigchld : ℕ
sigchld = 17

abbrev pub install : ℕ → Action → Actions → Actions
install signum act acts n = if n == signum then act else acts n

-- What sigaction_func gives back, nothing being SIG_ERR, and the actions behind it.
pub record Installed : Type 0 where
  pub previous : Option Handler
  pub actions : Actions

-- Both SA_INTERRUPT and SA_RESTART are defined.
abbrev pub action_for : ℕ → Bool → Handler → Action
action_for signum siginfo func = record {
  handler = func;
  sa_interrupt = signum == sigalrm;
  sa_restart = not (signum == sigalrm);
  sa_siginfo = siginfo;
}

pub sigaction_func : ℕ → Handler → Answer Nothing → Actions → Installed
sigaction_func signum func (done u) acts = record {
  previous = some (acts signum).handler;
  actions = install signum (action_for signum false func) acts;
}
sigaction_func signum func (failed e) acts = record { previous = none; actions = acts }

pub Sigaction_rt : ℕ → Handler → Answer Nothing → Actions → Installed
Sigaction_rt signum func (done u) acts = record {
  previous = some (acts signum).handler;
  actions = install signum (action_for signum true func) acts;
}
Sigaction_rt signum func (failed e) acts = record { previous = none; actions = acts }

abbrev unless_sig_err : Installed → Outcome (Handler × Actions)
unless_sig_err r = elim r.previous [ none ↦ exited minus_one | some h ↦ returned (h, r.actions) ]

pub Signal : ℕ → Handler → Answer Nothing → Actions → Outcome (Handler × Actions)
unfolding sigaction_func
Signal signum func a acts = unless_sig_err (sigaction_func signum func a acts)

pub Signal_rt : ℕ → Handler → Answer Nothing → Actions → Outcome (Handler × Actions)
unfolding Sigaction_rt
Signal_rt signum func a acts = unless_sig_err (Sigaction_rt signum func a acts)

-- `chld` is the handler sig_chld. Nothing is given back.
pub Signal_fork : Handler → ℕ → Answer Nothing → Actions → Outcome Actions
unfolding sigaction_func
Signal_fork chld signum a acts =
    let r = sigaction_func signum chld a acts in
    elim r.previous [ none ↦ exited minus_one | some h ↦ returned r.actions ]

-- The signal mask, the pending signals, and how often shield_handle has run.
pub record Mask : Type 0 where
  pub blocked : ℕ → Bool
  pub pending : ℕ → Bool
  pub runs : ℕ

abbrev pub sigint : ℕ
sigint = 2

abbrev pub set_bit : ℕ → Bool → (ℕ → Bool) → ℕ → Bool
set_bit k b f n = if n == k then b else f n

-- SIGINT arrives: it waits while it is blocked, and else the handler runs.
pub arrive : Mask → Mask
arrive m =
    if m.blocked sigint
    then record m { pending = set_bit sigint true m.pending }
    else record m { runs = m.runs + 1 }

pub arrivals : ℕ → Mask → Mask
arrivals zero m = m
arrivals (suc n) m = arrivals n (arrive m)

-- A new mask. A pending SIGINT that it does not block is handled before sigprocmask(2) returns.
pub set_mask : (ℕ → Bool) → Mask → Mask
set_mask mask m =
    if m.pending sigint && not (mask sigint)
    then record { blocked = mask; pending = set_bit sigint false m.pending; runs = m.runs + 1 }
    else record m { blocked = mask }

-- What process_shield leaves, and whether it said "SIGINT pending".
pub record Shielded : Type 0 where
  pub mask : Mask
  pub said_pending : Bool

-- process_shield behind sigaction(2), with `n` SIGINTs during sleep(5).
pub process_shield : ℕ → Mask → Shielded
process_shield n m =
    let shut = set_mask (λ k. k == sigint || m.blocked k) m in
    let slept = arrivals n shut in
    record { mask = set_mask m.blocked slept; said_pending = slept.pending sigint }
