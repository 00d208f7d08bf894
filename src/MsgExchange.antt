-- ===== src/MsgExchange.antt =====
-- System_V_message_queue/msg_test.cpp with the struct msg_data of wrap_msg.h: what goes over the queue, and
-- the service and the client of the single exchange (`test_msg_service`, `test_msg_client`). A step is one
-- system call with the code up to the next.
pub mod Carried
pub mod Answers
mod Tests
use unix_ipc_note.Base.{
  ℕ, ◌+◌, ◌-◌, ◌≡◌, ◌≤◌, Bool, true, false, List, [], ◌∷◌, ◌++◌, length, take, drop, ◌==◌,
  if◌then◌else◌,
}
use unix_ipc_note.UnixIo.{newline}
use unix_ipc_note.Words.{c_string, if_run}
use unix_ipc_note.Dialogue.{quit, time_cmd}

-- MSG_DATA_size
abbrev pub msg_data_size : ℕ
msg_data_size = 128

-- sizeof(struct msg_data): mtype, mtext with its padding, peer_id, data.
abbrev pub sizeof_msg_data : ℕ
sizeof_msg_data = 152

-- MSG_DATA_header, which counts mtype.
abbrev pub msg_data_header : ℕ
msg_data_header = sizeof_msg_data - msg_data_size

-- The longest text that, with what MSG_DATA_sendLEN adds, fits a receiver's struct.
abbrev pub max_text : ℕ
max_text = 120

-- A struct msg_data in memory: `middle` are the sixteen bytes from mtext to peer_id, `behind` is what
-- stands behind the struct.
pub record Struct : Type 0 where
  pub mtype : ℕ
  pub middle : List ℕ
  pub text : List ℕ
  pub behind : List ℕ

-- MSG_DATA_sendLEN(msgdata)
abbrev pub send_len : Struct → ℕ
send_len s = msg_data_header + length (c_string s.text)

-- What msgsnd(2) takes: that many bytes from mtext on.
pub sent_text : Struct → List ℕ
sent_text s = take (send_len s) (s.middle ++ (s.text ++ s.behind))

-- What a program finds in `data` of a struct in memory.
abbrev pub data_of : List ℕ → List ℕ
data_of struct = c_string (drop msg_data_header struct)

-- What Msgrcv makes of the text of such a message: Carried shows that its test finds the last byte.
unfoldable pub received : List ℕ → List ℕ
received [] = []
received (c ∷ []) = if c == newline then [] else c ∷ []
received (c ∷ d ∷ cs) = c ∷ received (d ∷ cs)

-- A message in the queue: whether mtext is 'S', and its data. All have the type OneToOne.
pub record Message : Type 0 where
  pub by_service : Bool
  pub text : List ℕ

pub data Client : Type 0 where
  typing : Client  -- before Read
  expecting : Client  -- before Msgrcv
  left : Client  -- behind the loop

pub data Service : Type 0 where
  listening : Service  -- before Msgrcv
  answering : List ℕ → Service  -- before Msgsnd
  over : Service  -- behind the loop, the queue removed

-- `asked` and `answered` are what the client has last sent and what it has last received; `heard` are the
-- texts that the service has taken out of the queue, the last first; `interrupted` tells whether a signal
-- has ever ended a Msgrcv.
pub record System : Type 0 where
  pub queue : List Message
  pub client : Client
  pub service : Service
  pub asked : List ℕ
  pub answered : List ℕ
  pub heard : List (List ℕ)
  pub interrupted : Bool

-- Behind Msgsnd: if (if_run("quit", msgdata.data)) break;
abbrev pub client_behind : List ℕ → Client
client_behind text = if if_run quit text then left else expecting

-- Behind Msgrcv: "quit" ends the loop, "time" is answered by the clock's text.
abbrev pub service_behind : List ℕ → List ℕ → Service
service_behind text clock =
    if if_run quit text then over else answering (if if_run time_cmd text then clock else text)

-- The clock's text starts with a day of the week, so that it is not taken for "quit". A text of more than
-- max_text bytes is no step: Msgrcv then writes behind the receiver's struct, see Carried.
pub data Step (s : System) : System → Type 0 where
  ask :
      (text : List ℕ)
      → s.client ≡ typing
      → length text ≤ max_text
      → Step s (record s {
        queue = s.queue ++ record { by_service = false; text = text } ∷ [];
        client = client_behind text;
        asked = text;
      })
  -- Read gives nothing more.
  stop : s.client ≡ typing → Step s (record s { client = left })
  receive :
      {m : Message} {ms : List Message}
      → s.client ≡ expecting
      → s.queue ≡ m ∷ ms
      → Step s (record s { queue = ms; client = typing; answered = received m.text })
  -- Msgrcv returns 0 at EINTR, with the struct cleared.
  receive_interrupted :
      s.client ≡ expecting
      → Step s (record s { client = typing; answered = []; interrupted = true })
  listen :
      {m : Message} {ms : List Message}
      → (clock : List ℕ) → if_run quit clock ≡ false
      → s.service ≡ listening
      → s.queue ≡ m ∷ ms
      → Step s (record s {
        queue = ms;
        service = service_behind (received m.text) clock;
        heard = received m.text ∷ s.heard;
      })
  listen_interrupted :
      s.service ≡ listening → Step s (record s { service = answering []; interrupted = true })
  answer :
      {text : List ℕ}
      → s.service ≡ answering text
      → Step s (record s {
        queue = s.queue ++ record { by_service = true; text = text } ∷ [];
        service = listening;
      })

-- The service finds the messages that an existing queue holds.
abbrev pub start : List Message → System
start found = record {
  queue = found;
  client = typing;
  service = listening;
  asked = [];
  answered = [];
  heard = [];
  interrupted = false;
}

pub data Reach (found : List Message) : System → Type 0 where
  here : Reach found (start found)
  next : {s t : System} → Reach found s → Step s t → Reach found t
