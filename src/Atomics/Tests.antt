-- ===== src/Atomics/Tests.antt =====
-- Two threads that read the same value lose a round.
use unix_ipc_note.Base.{refl, none, some, update, ℕ_discrete, arith}
use unix_ipc_note.Atomics.{Racing, RacingReach, RacingStep}

abbrev lost_one : Racing
lost_one = record {
  counting = record { counter = 1; rounds = update (update (λ _. 0) 0 1) 1 1 };
  held = update (update (update (update (λ _. none) 0 (some 0)) 1 (some 0)) 0 none) 1 none;
}

-- Two rounds are done, and the counter shows one.
lost_one-RacingReach : RacingReach lost_one
unfolding ℕ_discrete
lost_one-RacingReach =
    let first =
      RacingReach.next RacingReach.here (RacingStep.read 0 (omega arith) (omega arith) refl) in
    let second = RacingReach.next first (RacingStep.read 1 (omega arith) (omega arith) refl) in
    let stored = RacingReach.next second (RacingStep.write 0 (omega arith) refl) in
    RacingReach.next stored (RacingStep.write 1 (omega arith) refl)
