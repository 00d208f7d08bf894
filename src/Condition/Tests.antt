-- ===== src/Condition/Tests.antt =====
-- The raising thread runs to its end while the other has not begun, and the theorem there.
use unix_ipc_note.Base.{◌⊎◌, ℕ, zero, suc, ◌+◌, ◌≤◌, ◌≡◌, refl, ap, false, ltb, arith}
use unix_ipc_note.Condition.{
  nobody, Raising, Waiting, System, Step, raise_lock, raise, signal, raise_test, raise_unlock,
  raise_end, Reach, here, next,
}
use unix_ipc_note.Condition.Progress.{both_end}

-- After `k` rounds.
abbrev raised : ℕ → System
raised k = record { holder = nobody; num = k; first = Raising.locking; second = Waiting.locking }

raised-Reach : (k : ℕ) → k ≤ 100 → Reach (raised k)
raised-Reach zero h = here
raised-Reach (suc k) h =
    let low : ltb 100 (k + 1) ≡ false = ground arith in
    let one : suc k ≡ k + 1 = omega arith in
    let locked = next (raised-Reach k (omega arith)) (raise_lock refl refl) in
    let up = next locked (raise refl) in
    let told = next up (signal refl) in
    let tested = next told (raise_test refl) in
    rw one (next tested (raise_unlock (ap Raising.unlocking low)))

abbrev ended : System
ended = record { holder = nobody; num = 101; first = Raising.over; second = Waiting.locking }

ended-Reach : Reach ended
ended-Reach =
    let all_but_one : Reach (raised 100) = raised-Reach 100 (omega arith) in
    let locked = next all_but_one (raise_lock refl refl) in
    let up = next locked (raise refl) in
    let told = next up (signal refl) in
    let tested = next told (raise_test refl) in next tested (raise_end refl)

both_end_example :
    ((ended.first ≡ Raising.over) × (ended.second ≡ Waiting.over)) ⊎ ((t : System) × Step ended t)
both_end_example = both_end ended-Reach
