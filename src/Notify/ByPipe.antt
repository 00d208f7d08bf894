-- ===== src/Notify/ByPipe.antt =====
-- `test_mq_notify_pipe_select`: the handler `sig_usr1_02` writes a byte into a pipe, and the loop waits in
-- select(2) for the pipe. SIGUSR1 is never blocked.
pub mod Unnoticed
use unix_ipc_note.Base.{ℕ, zero, suc, ◌+◌, ◌<◌, ◌≡◌, Bool, true, false, List, [], ◌∷◌, length}
use unix_ipc_note.Notify.{Queue, arrive, receive, loops}

-- Where the loop stands.
pub data Place : Type 0 where
  opened : Place  -- behind Mq_open, before the first Mq_notify
  selecting : Place  -- in select, its set filled
  reading : Place  -- before read(pipe_fd[0], &mq_buf, 1)
  registering : Place  -- before Mq_notify
  draining : Place  -- before Mq_receive
  ended : Place  -- behind an exit in Mq_notify

-- `pipe` is the number of bytes in the pipe.
pub record System : Type 0 where
  pub queue : Queue
  pub pipe : ℕ
  pub place : Place

abbrev pub max_messages : ℕ
max_messages = 7

abbrev pub message_size : ℕ
message_size = 128

-- Mq_notify: mq_notify(3) fails where a registration stands, and the wrapper exits.
abbrev pub register : System → System
register s = elim s.queue.registered [
  | true ↦ record s { place = ended }
  | false ↦ record s { queue = record s.queue { registered = true }; place = draining }
]

abbrev pub drain : System → System
drain s = record s {
  queue = receive s.queue;
  place = elim (loops message_size s.queue) [ true ↦ draining | false ↦ selecting ];
}

-- A signal that interrupts select leads back to it: `if (errno == EINTR) continue;`.
pub data Step (s : System) : System → Type 0 where
  arrival :
      (m : List ℕ)
      → length s.queue.messages < max_messages
      → Step s (record s { queue = arrive m s.queue })
  sig_usr1_02 :
      s.queue.pending ≡ true
      → Step s (record s { queue = record s.queue { pending = false }; pipe = s.pipe + 1 })
  ready : s.place ≡ selecting → 0 < s.pipe → Step s (record s { place = reading })
  read_byte :
      {n : ℕ}
      → s.place ≡ reading
      → s.pipe ≡ suc n
      → Step s (record s { pipe = n; place = registering })
  first_notify :
      s.place ≡ opened
      → s.queue.registered ≡ false
      → Step s (record s { queue = record s.queue { registered = true }; place = selecting })
  notify : s.place ≡ registering → Step s (register s)
  take : s.place ≡ draining → Step s (drain s)

-- The first Mq_notify has found the new queue empty.
abbrev pub start : System
start = record {
  queue = record { messages = []; registered = true; pending = false; sent = []; taken = [] };
  pipe = 0;
  place = selecting;
}

-- What can be reached from `s`.
pub data Reach (s : System) : System → Type 0 where
  here : Reach s s
  next : {t u : System} → Reach s t → Step t u → Reach s u
