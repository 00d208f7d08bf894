-- ===== src/Once/Tests.antt =====
-- Two threads, one of which has initialised the resources, and the theorem there.
use unix_ipc_note.Base.{ℕ, refl, true, none, update, ℕ_discrete}
use unix_ipc_note.Once.{
  Place, testing, locking, looking, initializing, setting, unlocking, saying, Shared, need, lock,
  come_first, initialize, set, unlock, Reach, here, next,
}

-- What the places become on the way of thread 0.
abbrev path : (ℕ → Place) → ℕ → Place
path f =
    update
      (update (update (update (update (update f 0 locking) 0 looking) 0 initializing) 0 setting) 0
        unlocking)
      0 saying

abbrev done_one : Shared
done_one = record { initialized = true; owner = none; inits = 1; places = path (λ _. testing) }

done_one-Reach : Reach done_one
unfolding ℕ_discrete
done_one-Reach =
    let needed = next here (need 0 refl refl) in
    let locked = next needed (lock 0 refl refl) in
    let first = next locked (come_first 0 refl refl) in
    let initialized = next first (initialize 0 refl) in
    let marked = next initialized (set 0 refl) in next marked (unlock 0 refl)
