-- ===== src/MsgExchange/Tests.antt =====
-- A message and an exchange.
use unix_ipc_note.Base.{
  zero, suc, ℤ, drop, ◌<◌, ◌≤◌, ℕ, ◌+◌, ◌≡◌, refl, false, List, [], ◌∷◌, ◌++◌, length, replicate,
  pos, arith,
}
use unix_ipc_note.System.{returned, done}
use unix_ipc_note.UnixIo.{newline}
use unix_ipc_note.Words.{if_run, list_eq}
use unix_ipc_note.Words.Strings.{NoZero}
use unix_ipc_note.Wrappers.{Msgrcv}
use unix_ipc_note.Dialogue.{time_cmd}
use unix_ipc_note.MsgExchange.{
  msg_data_header, sizeof_msg_data, msg_data_size, Struct, sent_text, data_of, received, System,
  typing, listening, Step, Reach, here, next,
}
use unix_ipc_note.MsgExchange.Carried.{
  Holds, eight_behind, less_newline, data_carried, data_overruns,
}
use unix_ipc_note.MsgExchange.Answers.{answered_text, own_request}

-- "hi" and a newline, in a struct with nothing else.
abbrev hello : Struct
hello = record {
  mtype = 11111;
  middle = replicate 16 0;
  text = b'h' ∷ b'i' ∷ newline ∷ replicate 125 0;
  behind = [];
}

abbrev hi : List ℕ
hi = b'h' ∷ b'i' ∷ []

hello-Holds : Holds hello hi newline (replicate 124 0)
hello-Holds = record {
  middle_size = refl;
  text_is = refl;
  whole = refl;
  plain = (omega arith, (omega arith, (omega arith, tt)));
  enough = omega arith;
}

data_carried_example :
    let s : Struct = hello in
    (sent_text s ≡ s.middle ++ ((hi ++ newline ∷ []) ++ eight_behind s (replicate 124 0)))
    × (buffer : List ℕ) × (Msgrcv sizeof_msg_data 1
          (replicate 160 7)
          (done (record { mtype = s.mtype; mtext = sent_text s }))
        ≡ returned (record {
          value = pos (msg_data_header + length (less_newline hi newline));
          buffer = buffer;
        }))
    × (data_of buffer ≡ less_newline hi newline)
    × (drop sizeof_msg_data buffer ≡ drop sizeof_msg_data (replicate 160 7))
data_carried_example =
    data_carried hello hi newline (replicate 124 0) (replicate 160 7) hello-Holds (omega arith)

-- A text of 122 bytes.
abbrev long_text : List ℕ
long_text = replicate 121 b'a'

abbrev longest : Struct
longest = record {
  mtype = 11111;
  middle = replicate 16 0;
  text = long_text ++ b'b' ∷ replicate 6 0;
  behind = 5 ∷ 6 ∷ [];
}

plain_run : (n : ℕ) → NoZero (replicate n b'a' ++ b'b' ∷ [])
plain_run zero = (omega arith, tt)
plain_run (suc n) = (omega arith, plain_run n)

longest-Holds : Holds longest long_text b'b' (replicate 5 0)
longest-Holds = record {
  middle_size = refl;
  text_is = refl;
  whole = refl;
  plain = plain_run 121;
  enough = omega arith;
}

data_overruns_example :
    let s : Struct = longest in
    (length long_text + 1 < msg_data_size)
    × (length (sent_text s) ≤ sizeof_msg_data)
    × (value : ℤ) × (buffer : List ℕ) × (Msgrcv sizeof_msg_data 1
          (replicate 152 7)
          (done (record { mtype = s.mtype; mtext = sent_text s }))
        ≡ returned (record { value = value; buffer = buffer }))
    × (sizeof_msg_data < length buffer)
data_overruns_example =
    data_overruns longest long_text b'b' (replicate 5 0) (replicate 152 7) longest-Holds
      (omega arith) refl

abbrev answered : System
answered = record {
  queue = [];
  client = typing;
  service = listening;
  asked = hi;
  answered = hi;
  heard = hi ∷ [];
  interrupted = false;
}

answered_run : Reach [] answered
unfolding if_run list_eq received
answered_run =
    next
      (next (next (next here (Step.ask hi refl (omega arith))) (Step.listen [] refl refl refl))
        (Step.answer refl))
      (Step.receive refl refl)

answered_text_example :
    (answered.service ≡ listening)
    × (answered.queue ≡ [])
    × (received answered.asked ≡ answered.asked
        → if_run time_cmd answered.asked ≡ false
        → answered.answered ≡ answered.asked)
answered_text_example = answered_text answered_run refl refl

own_request_example :
    (s : System) × Reach [] s
    × (s.client ≡ typing)
    × (s.asked ≡ time_cmd)
    × (s.answered ≡ received time_cmd)
    × (s.heard ≡ [])
unfolding if_run list_eq received
own_request_example = own_request time_cmd refl (omega arith)
