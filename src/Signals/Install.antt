-- ===== src/Signals/Install.antt =====
-- Handlers that are installed and put back.
use unix_ipc_note.Base.{ℕ, ◌≡◌, refl, ◌≢◌, false, not, ◌==◌, arith, minus_one}
use unix_ipc_note.System.{Errno, returned, exited, done, failed}
use unix_ipc_note.Signals.{Handler, Actions, sigalrm, install, action_for, Signal, Signal_rt}

-- A handler installed by `Signal`, and then the one that it gave back by `Signal` again: the second
-- call gives back the first handler, the signal has its old handler, and the actions for all other
-- signals are as they were.
pub Signal-Signal :
    (signum : ℕ) (func : Handler) (acts : Actions)
    → (old : Handler) × (acts1 : Actions) × (acts2 : Actions) × (Signal signum func (done tt) acts
        ≡ returned (old, acts1))
      × (Signal signum old (done tt) acts1 ≡ returned (func, acts2))
      × ((acts1 signum).handler ≡ func)
      × ((acts2 signum).handler ≡ (acts signum).handler)
      × ((n : ℕ) → n ≢ signum → acts2 n ≡ acts n)
unfolding Signal
Signal-Signal signum func acts =
    let first : Actions = install signum (action_for signum false func) acts in
    let old = (acts signum).handler in
    let second : Actions = install signum (action_for signum false old) first in
    (old, first, second, refl, ground arith, ground arith, ground arith, λ n ne. ground arith)

-- A handler installed by `Signal` is restarted for every signal but SIGALRM, and interrupts for
-- SIGALRM alone; where sigaction(2) fails, `Signal` and `Signal_rt` end the process with -1.
pub Signal_flags :
    (signum : ℕ) (func : Handler) (acts : Actions) (e : Errno)
    → (acts' : Actions) × (Signal signum func (done tt) acts
        ≡ returned ((acts signum).handler, acts'))
      × ((acts' signum).sa_restart ≡ not (signum == sigalrm))
      × ((acts' signum).sa_interrupt ≡ (signum == sigalrm))
      × (Signal signum func (failed e) acts ≡ exited minus_one)
      × (Signal_rt signum func (failed e) acts ≡ exited minus_one)
unfolding Signal Signal_rt
Signal_flags signum func acts e = (
  install signum (action_for signum false func) acts,
  refl,
  ground arith,
  ground arith,
  refl,
  refl,
)
