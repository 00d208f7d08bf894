-- ===== src/Dialogue.antt =====
-- pipe_FIFO/my_mesg.cpp, `mesg_client` and `mesg_service`: the client sends the lines of the terminal
-- as messages, the service sends each back, and a line "time" is answered by the clock's text.
-- What the system contributes to a round of a loop is one Turn; the loops recur on the turns.
pub mod Echo
pub mod Talk
pub mod Ask
mod Tests
use unix_ipc_note.Base.{
  ℕ, Bool, true, false, List, [], ◌∷◌, ◌++◌, length, take, drop, replicate, pos, int_eq,
  if◌then◌else◌,
}
use unix_ipc_note.System.{Outcome, returned, exited, blocked, ReadAnswer, WriteAnswer}
use unix_ipc_note.UnixIo.{Reading, Read, Written, newline, overlay}
use unix_ipc_note.Words.{c_string, if_run}
use unix_ipc_note.Mesg.{Mesg, mesg_max_data, Mesg_send, Received, Mesg_recv}

abbrev pub quit : List ℕ
quit = b'q' ∷ b'u' ∷ b'i' ∷ b't' ∷ []

abbrev pub time_cmd : List ℕ
time_cmd = b't' ∷ b'i' ∷ b'm' ∷ b'e' ∷ []

-- The answers to the reads of the terminal and of the pipe and to the writes, and ctime(3)'s text.
pub record Turn : Type 0 where
  pub terminal : List ReadAnswer
  pub pipe : List ReadAnswer
  pub writes : List WriteAnswer
  pub clock : List ℕ

-- What a round leaves: whether the loop is left, the struct, and the bytes that went out.
pub record Round : Type 0 where
  pub over : Bool
  pub mesg : Mesg
  pub sent : List ℕ

-- memset(mesg_data, 0, 64), then snprintf(mesg_data, 64, "%.24s\n", ctime(…)).
pub clock_text : List ℕ → List ℕ → List ℕ
clock_text clock old = overlay (take 24 clock ++ newline ∷ 0 ∷ []) (overlay (replicate 64 0) old)

-- mesg_type = 2 or 1; mesg_len = strlen(mesg_data).
pub addressed : ℕ → List ℕ → Mesg
addressed mesg_type text = record {
  mesg_type = mesg_type;
  mesg_len = pos (length (c_string text));
  mesg_data = text;
}

-- The text that the service sends back: the clock's for "time", else what came.
pub service_text : Turn → Mesg → List ℕ
service_text t m =
    if if_run time_cmd (c_string m.mesg_data) then clock_text t.clock m.mesg_data else m.mesg_data

pub send_back : Turn → List ℕ → Outcome Round
send_back t text = elim (Mesg_send (addressed 2 text) t.writes) [
  | returned w ↦ returned (record { over = false; mesg = addressed 2 text; sent = w.sent })
  | exited v ↦ exited v
  | blocked ↦ blocked
]

-- The end of a round of the service, from the test for "quit" on.
pub service_reply : Turn → Mesg → Outcome Round
service_reply t m =
    if if_run quit (c_string m.mesg_data)
    then returned (record { over = true; mesg = m; sent = [] })
    else send_back t (service_text t m)

pub service_round : Mesg → Turn → Outcome Round
service_round old t = elim (Mesg_recv old t.pipe) [
  | returned r ↦
      if int_eq r.value (pos 0)
      then returned (record { over = true; mesg = r.mesg; sent = [] })
      else service_reply t r.mesg
  | exited v ↦ exited v
  | blocked ↦ blocked
]

-- The messages that went out, one for each round that sent one, in order.
abbrev pub Sent : Type 0
Sent = List (List ℕ)

abbrev pub behind : List ℕ → Outcome Sent → Outcome Sent
behind bytes (returned more) = returned (bytes ∷ more)
behind bytes (exited v) = exited v
behind bytes blocked = blocked

-- mesg_service, until it leaves its loop; blocked where the turns end first.
pub mesg_service : Mesg → List Turn → Outcome Sent
mesg_service old [] = blocked
mesg_service old (t ∷ ts) = elim (service_round old t) [
  | returned r ↦ if r.over then returned [] else behind r.sent (mesg_service r.mesg ts)
  | exited v ↦ exited v
  | blocked ↦ blocked
]

-- The end of a round of the client, behind Mesg_send.
pub client_receive : Turn → Mesg → List ℕ → Outcome Round
client_receive t m sent =
    if if_run quit (c_string m.mesg_data)
    then returned (record { over = true; mesg = m; sent = sent })
    else elim (Mesg_recv m t.pipe) [
      | returned r ↦ returned (record { over = int_eq r.value (pos 0); mesg = r.mesg; sent = sent })
      | exited v ↦ exited v
      | blocked ↦ blocked
    ]

pub client_round : Mesg → Turn → Outcome Round
client_round old t = elim (Read mesg_max_data 1 t.terminal) [
  | returned r ↦
      let text = overlay r.buffer old.mesg_data in
      if int_eq r.value (pos 0)
      then returned (record { over = true; mesg = record old { mesg_data = text }; sent = [] })
      else elim (Mesg_send (addressed 1 text) t.writes) [
        | returned w ↦ client_receive t (addressed 1 text) w.sent
        | exited v ↦ exited v
        | blocked ↦ blocked
      ]
  | exited v ↦ exited v
  | blocked ↦ blocked
]

-- mesg_client, until it leaves its loop. A last round that sends nothing adds an empty message.
pub mesg_client : Mesg → List Turn → Outcome Sent
mesg_client old [] = blocked
mesg_client old (t ∷ ts) = elim (client_round old t) [
  | returned r ↦ if r.over then returned (r.sent ∷ []) else behind r.sent (mesg_client r.mesg ts)
  | exited v ↦ exited v
  | blocked ↦ blocked
]
