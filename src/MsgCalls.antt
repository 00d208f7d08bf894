-- ===== src/MsgCalls.antt =====
-- System_V_message_queue/msg_test.cpp, `test_msg_service_echo` and `test_msg_client_call`: one service and any
-- number of clients at one queue; a client sends and receives messages of the type that is its process id.
-- A step is one call on the queue with the code up to the next; what a message carries is as in MsgExchange.
pub mod Types
pub mod Own
mod Tests
use unix_ipc_note.Base.{
  ℕ, ◌<◌, ◌≤◌, length, ◌≡◌, ◌≢◌, Bool, true, false, List, [], ◌∷◌, ◌++◌, update, if◌then◌else◌,
}
use unix_ipc_note.Words.{if_run}
use unix_ipc_note.Dialogue.{quit, time_cmd}
use unix_ipc_note.MsgExchange.{max_text, received}

-- A message in the queue: its type and its data.
pub record Message : Type 0 where
  pub mtype : ℕ
  pub text : List ℕ

pub data Service : Type 0 where
  listening : Service  -- before Msgrcv, for any type
  answering : ℕ → List ℕ → Service  -- before Msgsnd, with the type and the text
  leaving : Service  -- before Msgctl(msqid, IPC_RMID, …)
  gone : Service  -- the queue removed
  failed : Service  -- behind an exit in Msgsnd, which refuses the type 0

-- Of each process id: whether it waits in Msgrcv, and what it has last sent and received; and whether a
-- signal has ever ended a Msgrcv.
pub record System : Type 0 where
  pub queue : List Message
  pub service : Service
  pub waiting : ℕ → Bool
  pub asked : ℕ → List ℕ
  pub answered : ℕ → List ℕ
  pub interrupted : Bool

-- msgrcv(2) with a positive type takes the first message of that type.
pub data Taken (t : ℕ) : List Message → Message → List Message → Type 0 where
  first : {m : Message} {ms : List Message} → m.mtype ≡ t → Taken t (m ∷ ms) m ms
  later :
      {n m : Message} {ms rest : List Message}
      → n.mtype ≢ t
      → Taken t ms m rest
      → Taken t (n ∷ ms) m (n ∷ rest)

-- Behind Msgrcv: "quit" ends the loop, "time" is answered by the clock's text, all else by itself.
abbrev pub reply_to : Message → List ℕ → Service
reply_to m clock =
    let text = received m.text in
    if if_run quit text
    then leaving
    else answering m.mtype (if if_run time_cmd text then clock else text)

-- A call on a queue that has been removed ends the process, and is no step; nor is a text of more than
-- max_text bytes, for which Msgrcv writes behind the receiver's struct.
pub data Step (s : System) : System → Type 0 where
  ask :
      (pid : ℕ) (text : List ℕ)
      → 0 < pid
      → length text ≤ max_text
      → s.waiting pid ≡ false
      → s.service ≢ gone
      → Step s (record s {
        queue = s.queue ++ record { mtype = pid; text = text } ∷ [];
        waiting = update s.waiting pid true;
        asked = update s.asked pid text;
      })
  receive :
      (pid : ℕ) {m : Message} {rest : List Message}
      → s.waiting pid ≡ true
      → Taken pid s.queue m rest
      → Step s (record s {
        queue = rest;
        waiting = update s.waiting pid false;
        answered = update s.answered pid (received m.text);
      })
  -- Msgrcv returns 0 at EINTR, with the struct cleared.
  receive_interrupted :
      (pid : ℕ)
      → s.waiting pid ≡ true
      → Step s (record s {
        waiting = update s.waiting pid false;
        answered = update s.answered pid [];
        interrupted = true;
      })
  listen :
      {m : Message} {ms : List Message}
      → (clock : List ℕ) → s.service ≡ listening
      → s.queue ≡ m ∷ ms
      → Step s (record s { queue = ms; service = reply_to m clock })
  listen_interrupted :
      s.service ≡ listening → Step s (record s { service = answering 0 []; interrupted = true })
  refused : {text : List ℕ} → s.service ≡ answering 0 text → Step s (record s { service = failed })
  answer :
      {pid : ℕ} {text : List ℕ}
      → 0 < pid
      → s.service ≡ answering pid text
      → Step s (record s {
        queue = s.queue ++ record { mtype = pid; text = text } ∷ [];
        service = listening;
      })
  remove : s.service ≡ leaving → Step s (record s { queue = []; service = gone })

-- The service finds the messages that an existing queue holds.
abbrev pub start : List Message → System
start found = record {
  queue = found;
  service = listening;
  waiting = λ pid. false;
  asked = λ pid. [];
  answered = λ pid. [];
  interrupted = false;
}

pub data Reach (found : List Message) : System → Type 0 where
  here : Reach found (start found)
  next : {s t : System} → Reach found s → Step s t → Reach found t
