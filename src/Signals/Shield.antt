-- ===== src/Signals/Shield.antt =====
-- The demonstration that shields SIGINT.
use unix_ipc_note.Base.{
  ℕ, zero, suc, ◌+◌, ◌≡◌, refl, Bool, true, false, ◌||◌, ◌==◌, arith, if◌then◌else◌, ltb,
  Bool-cases, inl, inr,
}
use unix_ipc_note.Signals.{sigint, Mask, set_bit, arrive, arrivals, set_mask, process_shield}

arrive_blocked :
    (m : Mask)
    → m.blocked sigint ≡ true
    → arrive m ≡ record m { pending = set_bit sigint true m.pending }
unfolding arrive
arrive_blocked m shut = rw shut refl

-- While it is blocked, SIGINT waits, however often it comes.
arrivals_blocked :
    (n : ℕ) (m : Mask)
    → m.blocked sigint ≡ true
    → ((arrivals n m).blocked ≡ m.blocked)
      × ((arrivals n m).runs ≡ m.runs)
      × ((arrivals n m).pending sigint ≡ (if ltb 0 n then true else m.pending sigint))
unfolding arrivals
arrivals_blocked zero m shut = (refl, refl, refl)
arrivals_blocked (suc n) m shut =
    let waiting : Mask = record m { pending = set_bit sigint true m.pending } in
    let ih = arrivals_blocked n waiting shut in
    let first = arrive_blocked m shut in
    (ground (arith, first, ih.0), ground (arith, first, ih.1), ground (arith, first, ih.2))

set_mask_quiet :
    (mask : ℕ → Bool) (m : Mask)
    → m.pending sigint ≡ false
    → set_mask mask m ≡ record m { blocked = mask }
unfolding set_mask
set_mask_quiet mask m quiet = rw quiet refl

-- A mask that lets SIGINT through, set while it may be pending.
set_mask_open :
    (mask : ℕ → Bool) (m : Mask)
    → mask sigint ≡ false
    → ((set_mask mask m).runs ≡ m.runs + (if m.pending sigint then 1 else 0))
      × ((set_mask mask m).blocked ≡ mask)
      × ((set_mask mask m).pending sigint ≡ false)
unfolding set_mask
set_mask_open mask m h = elim (Bool-cases (m.pending sigint)) [
  | inl p ↦ rw (p, h) (refl, refl, refl)
  | inr p ↦ rw p (omega arith, refl, p)
]

-- Where SIGINT is neither blocked nor pending before, `process_shield` says that it is pending exactly
-- if it came during the sleep, its handler has then run once, however often it came, and the mask is
-- the old one again, with no SIGINT pending.
pub process_shield_once :
    (n : ℕ) (m : Mask)
    → m.blocked sigint ≡ false
    → m.pending sigint ≡ false
    → let s = process_shield n m in
      (s.said_pending ≡ ltb 0 n)
      × (s.mask.runs ≡ m.runs + (if ltb 0 n then 1 else 0))
      × (s.mask.blocked ≡ m.blocked)
      × (s.mask.pending sigint ≡ false)
unfolding process_shield
process_shield_once n m open_ quiet =
    let shut : Mask = record m { blocked = λ k. k == sigint || m.blocked k } in
    let slept = arrivals_blocked n shut refl in
    let after = set_mask_open m.blocked (arrivals n shut) open_ in
    rw (set_mask_quiet (λ k. k == sigint || m.blocked k) m quiet) (
      ground (arith, slept.2, quiet),
      ground (arith, slept.1, slept.2, after.0, quiet),
      after.1,
      after.2,
    )
