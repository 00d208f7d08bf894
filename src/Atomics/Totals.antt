-- ===== src/Atomics/Totals.antt =====
-- What the counters show at the end.
use unix_ipc_note.Base.{
  ℕ, ◌+◌, ◌<◌, ◌≤◌, ◌≡◌, refl, some, sum_below, sum_below-update, sum_below-const, ℕ_discrete,
  arith,
}
use unix_ipc_note.Atomics.{
  thread_num, round_num, Counting, AtomicStep, AtomicReach, Racing, RacingStep, RacingReach, Local,
  LocalStep, LocalReach,
}

-- The atomic counter is the sum of the rounds.
AtomicReach-sum : {s : Counting} → AtomicReach s → s.counter ≡ sum_below s.rounds thread_num
AtomicReach-sum AtomicReach.here =
    omega (arith, sum_below-const (λ _. 0) 0 thread_num (λ i lt. refl))
AtomicReach-sum (AtomicReach.next {s} r (AtomicStep.increment i lt more)) =
    let ih = AtomicReach-sum r in
    let sum = sum_below-update s.rounds (s.rounds i + 1) i thread_num lt in omega (arith, ih, sum)

LocalReach-sum : {s : Local} → LocalReach s → s.counting.counter ≡ sum_below s.added thread_num
LocalReach-sum LocalReach.here = omega (arith, sum_below-const (λ _. 0) 0 thread_num (λ i lt. refl))
LocalReach-sum (LocalReach.next {s} r (LocalStep.increment i lt more)) = LocalReach-sum r
LocalReach-sum (LocalReach.next {s} r (LocalStep.add i lt done fresh)) =
    let ih = LocalReach-sum r in
    let sum = sum_below-update s.added (s.counting.rounds i) i thread_num lt in
    omega (arith, ih, sum, fresh)

-- What has been read or is counted is at most the sum of the rounds.
record Behind (s : Racing) : Type 0 where
  counter_le : s.counting.counter ≤ sum_below s.counting.rounds thread_num
  held_le : (i v : ℕ) → s.held i ≡ some v → v ≤ sum_below s.counting.rounds thread_num

RacingReach-Behind : {s : Racing} → RacingReach s → Behind s
RacingReach-Behind RacingReach.here = record { counter_le = omega arith; held_le = λ i v e. cc }
RacingReach-Behind (RacingReach.next {s} r (RacingStep.read i lt more free)) =
    let ih = RacingReach-Behind r in
    record {
      counter_le = ih.counter_le;
      held_le = λ j v e. elim (ℕ_discrete i j) [
        | yes same ↦ ground (arith, same, ih.counter_le)
        | no other ↦ ground (arith, other, ih.held_le j v)
      ];
    }
RacingReach-Behind (RacingReach.next {s} r (RacingStep.write i {v} lt has)) =
    let ih = RacingReach-Behind r in
    let sum = sum_below-update s.counting.rounds (s.counting.rounds i + 1) i thread_num lt in
    let mine = ih.held_le i v has in
    record {
      counter_le = omega (arith, sum, mine);
      held_le = λ j w e. elim (ℕ_discrete i j) [
        | yes same ↦ ground (arith, same)
        | no other ↦
            let yours : s.held j ≡ some w = ground (arith, other) in
            omega (arith, sum, ih.held_le j w yours)
      ];
    }

-- When every thread has done its hundred rounds, the atomic counter shows 1000.
pub atomic_at_end :
    {s : Counting}
    → AtomicReach s
    → ((i : ℕ) → i < thread_num → s.rounds i ≡ round_num)
    → s.counter ≡ 1000
atomic_at_end {s} r all =
    omega (arith, AtomicReach-sum r, sum_below-const s.rounds round_num thread_num all)

-- With local results it shows 1000 when every thread has added its own.
pub local_at_end :
    {s : Local}
    → LocalReach s
    → ((i : ℕ) → i < thread_num → s.added i ≡ round_num)
    → s.counting.counter ≡ 1000
local_at_end {s} r all =
    omega (arith, LocalReach-sum r, sum_below-const s.added round_num thread_num all)

-- The counter that is no atomic never shows more than the rounds that are done.
pub racing_bound :
    {s : Racing} → RacingReach s → s.counting.counter ≤ sum_below s.counting.rounds thread_num
racing_bound r = (RacingReach-Behind r).counter_le
