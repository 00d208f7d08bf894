-- ===== src/Once.antt =====
-- thread_C++/mutex/06_double_checked_locking.cpp: any number of threads run `processingFunction`, which
-- initialises the shared resources behind a test, a lock and a second test. A step is one access to
-- the atomic flag, one lock operation or the initialisation.
pub mod Initialised
mod Tests
use unix_ipc_note.Base.{ℕ, ◌+◌, ◌≡◌, Bool, true, false, Option, none, some, update}

-- Where a thread stands in `processingFunction`.
pub data Place : Type 0 where
  testing : Place  -- at the first `if (!gInitialized)`
  locking : Place
  looking : Place  -- at the second test
  initializing : Place
  setting : Place  -- before gInitialized = true
  unlocking : Place
  saying : Place  -- at the output of "OK" and behind it

-- gInitialized, the thread that holds gMutex, and how often the resources have been initialised.
pub record Shared : Type 0 where
  pub initialized : Bool
  pub owner : Option ℕ
  pub inits : ℕ
  pub places : ℕ → Place

pub data Step (s : Shared) : Shared → Type 0 where
  skip :
      (i : ℕ)
      → s.places i ≡ testing
      → s.initialized ≡ true
      → Step s (record s { places = update s.places i saying })
  need :
      (i : ℕ)
      → s.places i ≡ testing
      → s.initialized ≡ false
      → Step s (record s { places = update s.places i locking })
  lock :
      (i : ℕ)
      → s.places i ≡ locking
      → s.owner ≡ none
      → Step s (record s { owner = some i; places = update s.places i looking })
  come_late :
      (i : ℕ)
      → s.places i ≡ looking
      → s.initialized ≡ true
      → Step s (record s { places = update s.places i unlocking })
  come_first :
      (i : ℕ)
      → s.places i ≡ looking
      → s.initialized ≡ false
      → Step s (record s { places = update s.places i initializing })
  initialize :
      (i : ℕ)
      → s.places i ≡ initializing
      → Step s (record s { inits = s.inits + 1; places = update s.places i setting })
  set :
      (i : ℕ)
      → s.places i ≡ setting
      → Step s (record s { initialized = true; places = update s.places i unlocking })
  unlock :
      (i : ℕ)
      → s.places i ≡ unlocking
      → Step s (record s { owner = none; places = update s.places i saying })

abbrev pub start : Shared
start = record { initialized = false; owner = none; inits = 0; places = λ _. testing }

pub data Reach : Shared → Type 0 where
  here : Reach start
  next : {s t : Shared} → Reach s → Step s t → Reach t
