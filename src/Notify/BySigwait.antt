-- ===== src/Notify/BySigwait.antt =====
-- `test_mq_notify_sigwait`: the loop takes SIGUSR1 in sigwait(3). The first Mq_notify stands before
-- sigprocmask(SIG_BLOCK), and no handler is set: a signal in between ends the process.
pub mod Unnoticed
use unix_ipc_note.Base.{ℕ, ◌<◌, ◌≡◌, Bool, true, false, List, [], ◌∷◌, length}
use unix_ipc_note.Notify.{Queue, arrive, receive, loops}

-- Where the process stands.
pub data Place : Type 0 where
  opened : Place  -- behind Mq_open, before the first Mq_notify
  to_block : Place  -- before sigprocmask(SIG_BLOCK)
  waiting : Place  -- in sigwait
  registering : Place  -- before Mq_notify
  draining : Place  -- before Mq_receive
  ended : Place  -- behind an exit in Mq_notify
  killed : Place  -- by SIGUSR1

pub record System : Type 0 where
  pub queue : Queue
  pub place : Place

abbrev pub max_messages : ℕ
max_messages = 6

abbrev pub message_size : ℕ
message_size = 512

-- Mq_notify: mq_notify(3) fails where a registration stands, and the wrapper exits.
abbrev pub register : System → System
register s = elim s.queue.registered [
  | true ↦ record s { place = ended }
  | false ↦ record s { queue = record s.queue { registered = true }; place = draining }
]

abbrev pub drain : System → System
drain s = record s {
  queue = receive s.queue;
  place = elim (loops message_size s.queue) [ true ↦ draining | false ↦ waiting ];
}

pub data Step (s : System) : System → Type 0 where
  arrival :
      (m : List ℕ)
      → length s.queue.messages < max_messages
      → Step s (record s { queue = arrive m s.queue })
  sig_usr1_default :
      s.queue.pending ≡ true
      → s.place ≡ to_block
      → Step s (record s { queue = record s.queue { pending = false }; place = killed })
  block : s.place ≡ to_block → s.queue.pending ≡ false → Step s (record s { place = waiting })
  sigwait :
      s.queue.pending ≡ true
      → s.place ≡ waiting
      → Step s (record s { queue = record s.queue { pending = false }; place = registering })
  first_notify :
      s.place ≡ opened
      → s.queue.registered ≡ false
      → Step s (record s { queue = record s.queue { registered = true }; place = to_block })
  notify : s.place ≡ registering → Step s (register s)
  take : s.place ≡ draining → Step s (drain s)

-- The first Mq_notify has found the new queue empty.
abbrev pub start : System
start = record {
  queue = record { messages = []; registered = true; pending = false; sent = []; taken = [] };
  place = to_block;
}

-- What can be reached from `s`.
pub data Reach (s : System) : System → Type 0 where
  here : Reach s s
  next : {t u : System} → Reach s t → Step t u → Reach s u
