-- ===== src/Signals/Tests.antt =====
-- The theorems on handlers at concrete inputs.
use unix_ipc_note.Base.{ℕ, ◌≤◌, ◌≡◌, refl, false, [], ◌∷◌, length}
use unix_ipc_note.Signals.{Status, Child, Parent, ParentStep, sig_chld, Handler, Actions, Mask}
use unix_ipc_note.Signals.Zombies.{here, next, sig_chld_stops, zombies_stay}

abbrev child : ℕ → Status → Child
child pid status = record { pid = pid; status = status }

-- Three children ended before the handler ran once.
abbrev killed : Child
killed = child 10 (Status.signaled 9)

abbrev first : Child
first = child 11 (Status.normal 0)

abbrev second : Child
second = child 12 (Status.normal 1)

sig_chld_stops_example :
    (sig_chld (killed ∷ first ∷ second ∷ [])
      ≡ record { reaped = killed ∷ first ∷ []; left = second ∷ [] })
    × (sig_chld (killed ∷ []) ≡ record { reaped = killed ∷ []; left = [] })
sig_chld_stops_example = sig_chld_stops (killed ∷ []) (second ∷ []) first (refl, tt) refl

-- One child is left; another ends, and the handler waits for one of the two.
abbrev left_one : Parent
left_one = record { zombies = first ∷ []; pending = false }

abbrev later : Parent
later = record { zombies = second ∷ []; pending = false }

zombies_stay_example : length (first ∷ []) ≤ length (second ∷ [])
unfolding sig_chld
zombies_stay_example =
    zombies_stay {s = left_one} {t = later}
      (next (next here (ParentStep.ends second) refl) (ParentStep.deliver refl) tt) (refl, tt) refl

abbrev defaults : Actions
defaults n = record {
  handler = Handler.sig_dfl;
  sa_interrupt = false;
  sa_restart = false;
  sa_siginfo = false;
}

abbrev quiet : Mask
quiet = record { blocked = λ n. false; pending = λ n. false; runs = 0 }
