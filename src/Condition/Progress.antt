-- ===== src/Condition/Progress.antt =====
-- The two threads never wait for each other for ever.
use unix_ipc_note.Base.{◌%◌, ◌≡◌, refl, ◌⊎◌, inl, inr, Bool, true, false, arith, ℕ_discrete}
use unix_ipc_note.Condition.{
  Holder, nobody, Raising, Waiting, System, wake, Step, raise_lock, raise, signal, raise_test,
  raise_unlock, raise_end, wait_lock, wait, pass, Spurious, rouse, rouse_next, relock, wait_test,
  wait_unlock, wait_end, Reach, here, next,
}
use unix_ipc_note.Condition.Wakeups.{Inv, Reach-Inv}

abbrev first_holds : Raising → Bool
first_holds Raising.locking = false
first_holds Raising.over = false
first_holds _ = true

abbrev second_holds : Waiting → Bool
second_holds Waiting.testing = true
second_holds Waiting.checking = true
second_holds (Waiting.unlocking last) = true
second_holds _ = false

-- The mutex is held by one who is between its lock and its release.
abbrev Held : Holder → Raising → Waiting → Type 0
Held Holder.nobody f w = Unit
Held Holder.raiser f w = first_holds f ≡ true
Held Holder.waiter f w = second_holds w ≡ true

wake-holds : (w : Waiting) → second_holds (wake w) ≡ second_holds w
wake-holds Waiting.sleeping = refl
wake-holds w = refl

Step-Held :
    {s t : System}
    → Step s t
    → Inv s
    → Held s.holder s.first s.second
    → Held t.holder t.first t.second
Step-Held {s} (raise_lock p o) inv held =
    ground (arith, inv.first_fits, inv.second_fits, wake-holds s.second)
Step-Held {s} (raise p) inv held =
    ground (arith, inv.first_fits, inv.second_fits, wake-holds s.second)
Step-Held {s} (signal p) inv held =
    ground (arith, inv.first_fits, inv.second_fits, wake-holds s.second)
Step-Held {s} (raise_test p) inv held =
    ground (arith, inv.first_fits, inv.second_fits, wake-holds s.second)
Step-Held {s} (raise_unlock p) inv held =
    ground (arith, inv.first_fits, inv.second_fits, wake-holds s.second)
Step-Held {s} (raise_end p) inv held =
    ground (arith, inv.first_fits, inv.second_fits, wake-holds s.second)
Step-Held {s} (wait_lock p o) inv held =
    ground (arith, inv.first_fits, inv.second_fits, wake-holds s.second)
Step-Held {s} (wait p z) inv held =
    ground (arith, inv.first_fits, inv.second_fits, wake-holds s.second)
Step-Held {s} (pass p z) inv held =
    ground (arith, inv.first_fits, inv.second_fits, wake-holds s.second)
Step-Held {s} (relock p o) inv held =
    ground (arith, inv.first_fits, inv.second_fits, wake-holds s.second)
Step-Held {s} (wait_test p) inv held =
    ground (arith, inv.first_fits, inv.second_fits, wake-holds s.second)
Step-Held {s} (wait_unlock p) inv held =
    ground (arith, inv.first_fits, inv.second_fits, wake-holds s.second)
Step-Held {s} (wait_end p) inv held =
    ground (arith, inv.first_fits, inv.second_fits, wake-holds s.second)

Spurious-Held :
    {s t : System} → Spurious s t → Held s.holder s.first s.second → Held t.holder t.first t.second
Spurious-Held (rouse p) held = ground arith

Reach-Held : {s : System} → Reach s → Held s.holder s.first s.second
Reach-Held here = tt
Reach-Held (next r st) = Step-Held st (Reach-Inv r) (Reach-Held r)
Reach-Held (rouse_next r sp) = Spurious-Held sp (Reach-Held r)

module _ (s : System) (inv : Inv s) where
  -- The second thread, where it holds the mutex.
  second_ready : (w : Waiting) → s.second ≡ w → second_holds w ≡ true → (t : System) × Step s t
  second_ready Waiting.testing e h = elim (ℕ_discrete (s.num % 10) 0) [
    | yes z ↦ (_, wait e z)
    | no z ↦ (_, pass e z)
  ]
  second_ready Waiting.checking e h = (_, wait_test e)
  second_ready (Waiting.unlocking true) e h = (_, wait_end e)
  second_ready (Waiting.unlocking false) e h = (_, wait_unlock e)
  second_ready w e h = absurd (cc)

  -- The first thread, where it has ended.
  last_ready :
      (w : Waiting)
      → s.second ≡ w
      → s.first ≡ Raising.over
      → s.holder ≡ nobody
      → (w ≡ Waiting.over) ⊎ ((t : System) × Step s t)
  last_ready Waiting.locking e f h = inr (_, wait_lock e h)
  last_ready Waiting.sleeping e f h = absurd (ground (arith, inv.first_fits, inv.second_fits))
  last_ready Waiting.woken e f h = inr (_, relock e h)
  last_ready Waiting.over e f h = inl refl
  last_ready w e f h = inr (second_ready w e (ground (arith, inv.second_fits)))

  ready :
      (f : Raising) (h : Holder)
      → s.first ≡ f
      → s.holder ≡ h
      → Held h s.first s.second
      → ((s.first ≡ Raising.over) × (s.second ≡ Waiting.over)) ⊎ ((t : System) × Step s t)
  ready f Holder.waiter e h held = inr (second_ready s.second refl held)
  ready Raising.locking Holder.nobody e h held = inr (_, raise_lock e h)
  ready Raising.locking Holder.raiser e h held = absurd (ground arith)
  ready Raising.raising h e o held = inr (_, raise e)
  ready Raising.signalling h e o held = inr (_, signal e)
  ready Raising.testing h e o held = inr (_, raise_test e)
  ready (Raising.unlocking true) h e o held = inr (_, raise_end e)
  ready (Raising.unlocking false) h e o held = inr (_, raise_unlock e)
  ready Raising.over Holder.nobody e h held = elim (last_ready s.second refl e h) [
    | inl over ↦ inl (e, over)
    | inr st ↦ inr st
  ]
  ready Raising.over Holder.raiser e h held = absurd (ground arith)

-- In every reachable state a step that is no spurious wake-up is possible, or both threads have ended.
pub both_end :
    {s : System}
    → Reach s
    → ((s.first ≡ Raising.over) × (s.second ≡ Waiting.over)) ⊎ ((t : System) × Step s t)
both_end {s} r = ready s (Reach-Inv r) s.first s.holder refl refl (Reach-Held r)
