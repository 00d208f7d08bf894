-- ===== src/Notify/BySignal.antt =====
-- `test_mq_notify_signal`: the handler sets mqFlag, and the loop waits for it in sigsuspend(2) with
-- SIGUSR1 blocked elsewhere.
pub mod Unnoticed
pub mod Stuck
use unix_ipc_note.Base.{ℕ, ◌<◌, ◌≡◌, ◌≢◌, ◌⊎◌, Bool, true, false, List, [], ◌∷◌, length}
use unix_ipc_note.Notify.{Queue, arrive, receive, loops}

-- Where the loop stands.
pub data Place : Type 0 where
  opened : Place  -- behind Mq_open, before the first Mq_notify
  to_block : Place  -- before sigprocmask(SIG_BLOCK)
  testing : Place  -- before the test of mqFlag
  asleep : Place  -- in sigsuspend
  resetting : Place  -- before mqFlag = 0
  registering : Place  -- before Mq_notify
  draining : Place  -- before Mq_receive
  to_unblock : Place  -- before sigprocmask(SIG_UNBLOCK)
  ended : Place  -- behind an exit in Mq_notify

-- Whether the handler may run: SIGUSR1 is not blocked, or sigsuspend waits with an empty mask.
abbrev pub is_open : Place → Bool
is_open opened = true
is_open to_block = true
is_open asleep = true
is_open _ = false

-- Where the loop stands behind the handler; sigsuspend returns.
abbrev pub woken : Place → Place
woken asleep = testing
woken p = p

pub record System : Type 0 where
  pub queue : Queue
  pub mq_flag : Bool
  pub place : Place

abbrev pub max_messages : ℕ
max_messages = 5

abbrev pub message_size : ℕ
message_size = 1024

-- Mq_notify: mq_notify(3) fails where a registration stands, and the wrapper exits.
abbrev pub register : System → System
register s = elim s.queue.registered [
  | true ↦ record s { place = ended }
  | false ↦ record s { queue = record s.queue { registered = true }; place = draining }
]

abbrev pub drain : System → System
drain s = record s {
  queue = receive s.queue;
  place = elim (loops message_size s.queue) [ true ↦ draining | false ↦ to_unblock ];
}

pub data Step (s : System) : System → Type 0 where
  arrival :
      (m : List ℕ)
      → length s.queue.messages < max_messages
      → Step s (record s { queue = arrive m s.queue })
  sig_usr1 :
      s.queue.pending ≡ true
      → is_open s.place ≡ true
      → Step s (record {
        queue = record s.queue { pending = false };
        mq_flag = true;
        place = woken s.place;
      })
  block : s.place ≡ to_block → Step s (record s { place = testing })
  flag_set : s.place ≡ testing → s.mq_flag ≡ true → Step s (record s { place = resetting })
  flag_clear : s.place ≡ testing → s.mq_flag ≡ false → Step s (record s { place = asleep })
  reset : s.place ≡ resetting → Step s (record s { mq_flag = false; place = registering })
  first_notify :
      s.place ≡ opened
      → s.queue.registered ≡ false
      → Step s (record s { queue = record s.queue { registered = true }; place = to_block })
  notify : s.place ≡ registering → Step s (register s)
  take : s.place ≡ draining → Step s (drain s)
  unblock : s.place ≡ to_unblock → Step s (record s { place = to_block })

-- The first Mq_notify has found the new queue empty.
abbrev pub start : System
start = record {
  queue = record { messages = []; registered = true; pending = false; sent = []; taken = [] };
  mq_flag = false;
  place = to_block;
}

-- What can be reached from `s`.
pub data Reach (s : System) : System → Type 0 where
  here : Reach s s
  next : {t u : System} → Reach s t → Step t u → Reach s u
