-- ===== src/Once/Initialised.antt =====
-- The resources are initialised once, and before any thread goes on.
use unix_ipc_note.Base.{ℕ, ◌≤◌, ◌≡◌, ◌≢◌, refl, Bool, true, false, none, some, arith}
use unix_ipc_note.Once.{
  Place, testing, locking, looking, initializing, setting, unlocking, saying, Shared, Step, skip,
  need, lock, come_late, come_first, initialize, set, unlock, Reach, here, next,
}

abbrev times : Bool → ℕ
times true = 1
times false = 0

-- What the place of thread `i` says of the flag, the lock and the count.
abbrev pub Fits : Place → ℕ → Shared → Type 0
Fits testing i s = s.owner ≢ some i
Fits locking i s = s.owner ≢ some i
Fits looking i s = (s.owner ≡ some i) × (s.inits ≡ times s.initialized)
Fits initializing i s = (s.owner ≡ some i) × (s.initialized ≡ false) × (s.inits ≡ 0)
Fits setting i s = (s.owner ≡ some i) × (s.initialized ≡ false) × (s.inits ≡ 1)
Fits unlocking i s = (s.owner ≡ some i) × (s.initialized ≡ true) × (s.inits ≡ 1)
Fits saying i s = (s.owner ≢ some i) × (s.initialized ≡ true)

pub record Inv (s : Shared) : Type 0 where
  pub fits : (i : ℕ) → Fits (s.places i) i s
  pub free : s.owner ≡ none → s.inits ≡ times s.initialized
  pub once : s.initialized ≡ true → s.inits ≡ 1
  pub bound : s.inits ≤ 1

Step-Fits : {s t : Shared} → Step s t → Inv s → (j : ℕ) → Fits (t.places j) j t
Step-Fits {s} (skip i p q) inv j = ground (arith, inv.fits i, inv.fits j, inv.free)
Step-Fits {s} (need i p q) inv j = ground (arith, inv.fits i, inv.fits j, inv.free)
Step-Fits {s} (lock i p q) inv j = ground (arith, inv.fits i, inv.fits j, inv.free)
Step-Fits {s} (come_late i p q) inv j = ground (arith, inv.fits i, inv.fits j, inv.free)
Step-Fits {s} (come_first i p q) inv j = ground (arith, inv.fits i, inv.fits j, inv.free)
Step-Fits {s} (initialize i p) inv j = ground (arith, inv.fits i, inv.fits j, inv.free)
Step-Fits {s} (set i p) inv j = ground (arith, inv.fits i, inv.fits j, inv.free)
Step-Fits {s} (unlock i p) inv j = ground (arith, inv.fits i, inv.fits j, inv.free)

Step-counts :
    {s t : Shared}
    → Step s t
    → Inv s
    → (t.owner ≡ none → t.inits ≡ times t.initialized)
      × (t.initialized ≡ true → t.inits ≡ 1)
      × (t.inits ≤ 1)
Step-counts {s} (skip i p q) inv = ground (arith, inv.fits i, inv.free, inv.once, inv.bound)
Step-counts {s} (need i p q) inv = ground (arith, inv.fits i, inv.free, inv.once, inv.bound)
Step-counts {s} (lock i p q) inv = ground (arith, inv.fits i, inv.free, inv.once, inv.bound)
Step-counts {s} (come_late i p q) inv = ground (arith, inv.fits i, inv.free, inv.once, inv.bound)
Step-counts {s} (come_first i p q) inv = ground (arith, inv.fits i, inv.free, inv.once, inv.bound)
Step-counts {s} (initialize i p) inv = ground (arith, inv.fits i, inv.free, inv.once, inv.bound)
Step-counts {s} (set i p) inv = ground (arith, inv.fits i, inv.free, inv.once, inv.bound)
Step-counts {s} (unlock i p) inv = ground (arith, inv.fits i, inv.free, inv.once, inv.bound)

pub Reach-Inv : {s : Shared} → Reach s → Inv s
Reach-Inv here = record { fits = λ i e. cc; free = λ e. refl; once = λ e. cc; bound = omega arith }
Reach-Inv (next r st) =
    let counts = Step-counts st (Reach-Inv r) in
    record { fits = Step-Fits st (Reach-Inv r); free = counts.0; once = counts.1; bound = counts.2 }

-- Between the lock and the unlock.
abbrev pub Inside : Place → Type 0
Inside testing = ⊥
Inside locking = ⊥
Inside saying = ⊥
Inside _ = Unit

owner-Inside : (p : Place) (i : ℕ) (s : Shared) → Fits p i s → Inside p → s.owner ≡ some i
owner-Inside testing i s f h = absurd h
owner-Inside locking i s f h = absurd h
owner-Inside looking i s f h = f.0
owner-Inside initializing i s f h = f.0
owner-Inside setting i s f h = f.0
owner-Inside unlocking i s f h = f.0
owner-Inside saying i s f h = absurd h

-- In every reachable state, with any number of threads, the resources have been initialised at most
-- once, and exactly once if any thread has come to "OK"; and at most one thread is between the lock
-- and the unlock.
pub initialized_once :
    {s : Shared}
    → Reach s
    → (s.inits ≤ 1)
      × ((i : ℕ) → s.places i ≡ saying → s.inits ≡ 1)
      × ((i j : ℕ) → Inside (s.places i) → Inside (s.places j) → i ≡ j)
initialized_once {s} r =
    let inv = Reach-Inv r in
    (
      inv.bound,
      λ i e. ground (arith, inv.fits i, inv.once),
      λ i j h k.
          let mine = owner-Inside (s.places i) i s (inv.fits i) h in
          let yours = owner-Inside (s.places j) j s (inv.fits j) k in cc (mine, yours),
    )
