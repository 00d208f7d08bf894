-- ===== src/Logger.antt =====
-- thread_C++/logger/Logger.cpp: any number of threads call `log`, a thread of the object's own writes
-- the entries to the file in `processEntries`, and the destructor stops it. A step is one lock
-- operation or one access to the shared members; an entry is a number. That no thread calls `log` on
-- an object whose destructor has begun is the rule of the language for objects, and part of the steps.
pub mod Invariant
pub mod LogSteps
pub mod WriteSteps
pub mod DestroySteps
pub mod Entries
pub mod Stop
mod Tests
use unix_ipc_note.Base.{ℕ, ◌≡◌, ◌≢◌, Bool, true, false, List, [], ◌∷◌, ◌++◌, update}

-- Who holds mMutex.
pub data Owner : Type 0 where
  nobody : Owner
  caller : ℕ → Owner
  writer : Owner
  destructor : Owner

-- Where a thread stands in `log`.
pub data Call : Type 0 where
  outside : Call
  locking : ℕ → Call
  pushing : ℕ → Call
  notifying : Call
  unlocking : Call

-- Where the object's own thread stands in `processEntries`.
pub data Write : Type 0 where
  opening : Write  -- at the opening of log.txt
  entering : Write  -- before the first lock
  testing : Write  -- at `if (!mExit)`
  sleeping : Write  -- in mCondVar.wait
  woken : Write  -- in mCondVar.wait, on the way to the mutex
  releasing : Write  -- at `lock.unlock()` behind the wait
  relocking : Write  -- at `lock.lock()` in the inner loop
  looking : Write  -- at `if (mQueue.empty())`
  unlocking : Write  -- at the end of the inner loop
  deciding : Write  -- at `if (mExit)`
  finished : Write
  gave_up : Write  -- returned because the file does not open

-- Where the destructor stands.
pub data Destroy : Type 0 where
  alive : Destroy
  locking : Destroy
  setting : Destroy
  notifying : Destroy
  unlocking : Destroy
  joining : Destroy
  gone : Destroy

-- The members, with two histories: the entries that `log` has queued and those in the file.
pub record Logger : Type 0 where
  pub owner : Owner
  pub exit : Bool
  pub queue : List ℕ
  pub logged : List ℕ
  pub written : List ℕ
  pub calls : ℕ → Call
  pub write : Write
  pub destroy : Destroy

-- mCondVar.notify_all(), seen from the one thread that waits.
abbrev pub wake : Write → Write
wake sleeping = woken
wake opening = opening
wake entering = entering
wake testing = testing
wake woken = woken
wake releasing = releasing
wake relocking = relocking
wake looking = looking
wake unlocking = unlocking
wake deciding = deciding
wake finished = finished
wake gave_up = gave_up

-- `log`, called by thread `i`.
pub data LogStep (i : ℕ) (s : Logger) : Logger → Type 0 where
  call :
      (e : ℕ)
      → s.destroy ≡ alive
      → s.calls i ≡ outside
      → LogStep i s (record s { calls = update s.calls i (locking e) })
  lock :
      {e : ℕ}
      → s.calls i ≡ locking e
      → s.owner ≡ nobody
      → LogStep i s (record s { owner = caller i; calls = update s.calls i (pushing e) })
  push :
      {e : ℕ}
      → s.calls i ≡ pushing e
      → LogStep i s (record s {
        queue = s.queue ++ e ∷ [];
        logged = s.logged ++ e ∷ [];
        calls = update s.calls i notifying;
      })
  notify :
      s.calls i ≡ notifying
      → LogStep i s (record s { write = wake s.write; calls = update s.calls i unlocking })
  unlock :
      s.calls i ≡ unlocking
      → LogStep i s (record s { owner = nobody; calls = update s.calls i outside })

-- `processEntries`. A wait may end with no notification.
pub data WriteStep (s : Logger) : Logger → Type 0 where
  open_fails : s.write ≡ opening → WriteStep s (record s { write = gave_up })
  opened : s.write ≡ opening → WriteStep s (record s { write = entering })
  enter :
      s.write ≡ entering
      → s.owner ≡ nobody
      → WriteStep s (record s { owner = writer; write = testing })
  wait :
      s.write ≡ testing
      → s.exit ≡ false
      → WriteStep s (record s { owner = nobody; write = sleeping })
  go : s.write ≡ testing → s.exit ≡ true → WriteStep s (record s { write = releasing })
  rouse : s.write ≡ sleeping → WriteStep s (record s { write = woken })
  wake_up :
      s.write ≡ woken
      → s.owner ≡ nobody
      → WriteStep s (record s { owner = writer; write = releasing })
  release : s.write ≡ releasing → WriteStep s (record s { owner = nobody; write = relocking })
  relock :
      s.write ≡ relocking
      → s.owner ≡ nobody
      → WriteStep s (record s { owner = writer; write = looking })
  none_left : s.write ≡ looking → s.queue ≡ [] → WriteStep s (record s { write = deciding })
  take :
      {e : ℕ} {rest : List ℕ}
      → s.write ≡ looking
      → s.queue ≡ e ∷ rest
      → WriteStep s (record s { queue = rest; written = s.written ++ e ∷ []; write = unlocking })
  unlock : s.write ≡ unlocking → WriteStep s (record s { owner = nobody; write = relocking })
  again : s.write ≡ deciding → s.exit ≡ false → WriteStep s (record s { write = testing })
  finish :
      s.write ≡ deciding
      → s.exit ≡ true
      → WriteStep s (record s { owner = nobody; write = finished })

-- `~Logger`.
pub data DestroyStep (s : Logger) : Logger → Type 0 where
  destroy :
      s.destroy ≡ alive
      → ((i : ℕ) → s.calls i ≡ outside)
      → DestroyStep s (record s { destroy = locking })
  lock :
      s.destroy ≡ locking
      → s.owner ≡ nobody
      → DestroyStep s (record s { owner = destructor; destroy = setting })
  set : s.destroy ≡ setting → DestroyStep s (record s { exit = true; destroy = notifying })
  notify :
      s.destroy ≡ notifying → DestroyStep s (record s { write = wake s.write; destroy = unlocking })
  unlock : s.destroy ≡ unlocking → DestroyStep s (record s { owner = nobody; destroy = joining })
  join_finished :
      s.destroy ≡ joining → s.write ≡ finished → DestroyStep s (record s { destroy = gone })
  join_gave_up :
      s.destroy ≡ joining → s.write ≡ gave_up → DestroyStep s (record s { destroy = gone })

pub data Step (s : Logger) : Logger → Type 0 where
  log : {t : Logger} (i : ℕ) → LogStep i s t → Step s t
  process : {t : Logger} → WriteStep s t → Step s t
  end : {t : Logger} → DestroyStep s t → Step s t

-- Behind the constructor.
abbrev pub start : Logger
start = record {
  owner = nobody;
  exit = false;
  queue = [];
  logged = [];
  written = [];
  calls = λ _. outside;
  write = opening;
  destroy = alive;
}

pub data Reach : Logger → Type 0 where
  here : Reach start
  next : {s t : Logger} → Reach s → Step s t → Reach t
