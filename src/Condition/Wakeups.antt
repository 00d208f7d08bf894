-- ===== src/Condition/Wakeups.antt =====
-- The waiting thread is always woken.
use unix_ipc_note.Base.{ℕ, ◌%◌, ◌≤◌, ◌≡◌, ◌≢◌, ◌⊎◌, true, false, arith}
use unix_ipc_note.Condition.{
  Holder, raiser, waiter, Raising, signalling, Waiting, sleeping, System, wake, Step, raise_lock,
  raise, signal, raise_test, raise_unlock, raise_end, wait_lock, wait, pass, Spurious, rouse,
  rouse_next, relock, wait_test, wait_unlock, wait_end, Reach, here, next,
}

-- What the first thread's place says of the holder and of the number.
abbrev pub FirstFits : Raising → Holder → ℕ → Type 0
FirstFits Raising.locking h num = (h ≢ raiser) × (num ≤ 100)
FirstFits Raising.raising h num = (h ≡ raiser) × (num ≤ 100)
FirstFits Raising.signalling h num = (h ≡ raiser) × (num ≤ 101)
FirstFits Raising.testing h num = (h ≡ raiser) × (num ≤ 101)
FirstFits (Raising.unlocking true) h num = (h ≡ raiser) × (num ≡ 101)
FirstFits (Raising.unlocking false) h num = (h ≡ raiser) × (num ≤ 100)
FirstFits Raising.over h num = (h ≢ raiser) × (num ≡ 101)

-- What the second thread's place says of the holder, and that it sleeps only while a signal comes.
abbrev pub SecondFits : Waiting → Holder → ℕ → Raising → Type 0
SecondFits Waiting.locking h num f = h ≢ waiter
SecondFits Waiting.testing h num f = h ≡ waiter
SecondFits Waiting.sleeping h num f = (h ≢ waiter) × ((num ≤ 100) ⊎ (f ≡ signalling))
SecondFits Waiting.woken h num f = h ≢ waiter
SecondFits Waiting.checking h num f = h ≡ waiter
SecondFits (Waiting.unlocking last) h num f = h ≡ waiter
SecondFits Waiting.over h num f = h ≢ waiter

pub record Inv (s : System) : Type 0 where
  pub first_fits : FirstFits s.first s.holder s.num
  pub second_fits : SecondFits s.second s.holder s.num s.first

Step-FirstFits : {s t : System} → Step s t → Inv s → FirstFits t.first t.holder t.num
Step-FirstFits (raise_lock p o) inv = ground (arith, inv.first_fits, inv.second_fits)
Step-FirstFits (raise p) inv = ground (arith, inv.first_fits, inv.second_fits)
Step-FirstFits (signal p) inv = ground (arith, inv.first_fits, inv.second_fits)
Step-FirstFits (raise_test p) inv = ground (arith, inv.first_fits, inv.second_fits)
Step-FirstFits (raise_unlock p) inv = ground (arith, inv.first_fits, inv.second_fits)
Step-FirstFits (raise_end p) inv = ground (arith, inv.first_fits, inv.second_fits)
Step-FirstFits (wait_lock p o) inv = ground (arith, inv.first_fits, inv.second_fits)
Step-FirstFits (wait p z) inv = ground (arith, inv.first_fits, inv.second_fits)
Step-FirstFits (pass p z) inv = ground (arith, inv.first_fits, inv.second_fits)
Step-FirstFits (relock p o) inv = ground (arith, inv.first_fits, inv.second_fits)
Step-FirstFits (wait_test p) inv = ground (arith, inv.first_fits, inv.second_fits)
Step-FirstFits (wait_unlock p) inv = ground (arith, inv.first_fits, inv.second_fits)
Step-FirstFits (wait_end p) inv = ground (arith, inv.first_fits, inv.second_fits)

pub wake-SecondFits :
    (w : Waiting) (h : Holder) (num : ℕ)
    → SecondFits w h num signalling
    → SecondFits (wake w) h num Raising.testing
wake-SecondFits Waiting.sleeping h num f = f.0
wake-SecondFits w h num f = f

Step-SecondFits : {s t : System} → Step s t → Inv s → SecondFits t.second t.holder t.num t.first
Step-SecondFits (raise_lock p o) inv = ground (arith, inv.first_fits, inv.second_fits)
Step-SecondFits (raise p) inv = ground (arith, inv.first_fits, inv.second_fits)
Step-SecondFits {s} (signal p) inv =
    ground (arith, wake-SecondFits s.second s.holder s.num, inv.second_fits)
Step-SecondFits (raise_test p) inv = ground (arith, inv.first_fits, inv.second_fits)
Step-SecondFits (raise_unlock p) inv = ground (arith, inv.first_fits, inv.second_fits)
Step-SecondFits (raise_end p) inv = ground (arith, inv.first_fits, inv.second_fits)
Step-SecondFits (wait_lock p o) inv = ground (arith, inv.first_fits, inv.second_fits)
Step-SecondFits (wait p z) inv = ground (arith, inv.first_fits, inv.second_fits)
Step-SecondFits (pass p z) inv = ground (arith, inv.first_fits, inv.second_fits)
Step-SecondFits (relock p o) inv = ground (arith, inv.first_fits, inv.second_fits)
Step-SecondFits (wait_test p) inv = ground (arith, inv.first_fits, inv.second_fits)
Step-SecondFits (wait_unlock p) inv = ground (arith, inv.first_fits, inv.second_fits)
Step-SecondFits (wait_end p) inv = ground (arith, inv.first_fits, inv.second_fits)

Spurious-Inv : {s t : System} → Spurious s t → Inv s → Inv t
Spurious-Inv (rouse p) inv = record {
  first_fits = inv.first_fits;
  second_fits = ground (arith, inv.second_fits);
}

pub Reach-Inv : {s : System} → Reach s → Inv s
Reach-Inv here = record { first_fits = (λ e. cc, omega arith); second_fits = λ e. cc }
Reach-Inv (next r st) = record {
  first_fits = Step-FirstFits st (Reach-Inv r);
  second_fits = Step-SecondFits st (Reach-Inv r);
}
Reach-Inv (rouse_next r sp) = Spurious-Inv sp (Reach-Inv r)

-- When the raising thread has ended, the number is 101 and the other thread is not asleep, and where it
-- tests the number it does not go to sleep again.
pub no_sleep_after_end :
    {s : System}
    → Reach s
    → s.first ≡ Raising.over
    → (s.num ≡ 101) × (s.second ≢ sleeping) × (s.num % 10 ≢ 0)
no_sleep_after_end {s} r e =
    let inv = Reach-Inv r in
    let end : s.num ≡ 101 = ground (arith, inv.first_fits) in
    (end, λ asleep. ground (arith, inv.second_fits), omega (arith, end))
