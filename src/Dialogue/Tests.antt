-- ===== src/Dialogue/Tests.antt =====
-- A session with one line, a request for the time, and "quit".
use unix_ipc_note.Base.{ℕ, ◌≡◌, refl, List, [], ◌∷◌, ◌++◌, replicate, pos, false, arith}
use unix_ipc_note.System.{returned, got, wrote}
use unix_ipc_note.UnixIo.{newline}
use unix_ipc_note.UnixIo.ReadLaws.{chomp}
use unix_ipc_note.Words.{c_string, if_run}
use unix_ipc_note.Mesg.{Mesg, header}
use unix_ipc_note.Dialogue.{Turn, client_round, mesg_service}
use unix_ipc_note.Dialogue.Echo.{Line, bytes, IsLine, arriving, Serves}
use unix_ipc_note.Dialogue.Ask.{Asks, client_round-Asks}
use unix_ipc_note.Dialogue.Talk.{Visit, replies, turns, mesg_service-replies}

abbrev blank : Mesg
blank = record { mesg_type = 0; mesg_len = pos 0; mesg_data = replicate 4 0 }

abbrev hi : Line
hi = record { text = b'h' ∷ []; last = b'i' }

abbrev what_time : Line
what_time = record { text = b't' ∷ b'i' ∷ b'm' ∷ []; last = b'e' }

abbrev quitting : Line
quitting = record { text = b'q' ∷ b'u' ∷ b'i' ∷ []; last = b't' }

abbrev turn : Line → ℕ → Turn
turn l k = record {
  terminal = [];
  pipe = arriving l;
  writes = wrote k ∷ [];
  clock = b'T' ∷ b'h' ∷ b'u' ∷ [];
}

abbrev visits : List Visit
visits = (turn hi 18, hi) ∷ (turn what_time 20, what_time) ∷ []

hi-IsLine : IsLine hi
hi-IsLine = record {
  no_zero = omega arith;
  no_newline = omega arith;
  has_text = omega arith;
  fits = omega arith;
}

what_time-IsLine : IsLine what_time
what_time-IsLine = record {
  no_zero = omega arith;
  no_newline = omega arith;
  has_text = omega arith;
  fits = omega arith;
}

quitting-IsLine : IsLine quitting
quitting-IsLine = record {
  no_zero = omega arith;
  no_newline = omega arith;
  has_text = omega arith;
  fits = omega arith;
}

hi-Serves : Serves (turn hi 18) hi
unfolding if_run
hi-Serves = record {
  line = hi-IsLine;
  arrives = refl;
  clock_whole = omega arith;
  delivers = (omega arith, tt);
}

what_time-Serves : Serves (turn what_time 20) what_time
unfolding if_run
what_time-Serves = record {
  line = what_time-IsLine;
  arrives = refl;
  clock_whole = omega arith;
  delivers = (omega arith, tt);
}

mesg_service-replies_example :
    mesg_service blank (turns visits (turn quitting 0 ∷ [])) ≡ returned (replies visits)
unfolding if_run
mesg_service-replies_example =
    mesg_service-replies blank visits (turn quitting 0) quitting []
      (hi-Serves, refl, (what_time-Serves, refl, tt)) quitting-IsLine refl refl

-- "hi" is typed with a newline, and comes back.
abbrev typing : Turn
typing = record {
  terminal = got (b'h' ∷ b'i' ∷ newline ∷ []) ∷ [];
  pipe = got (header 2 (pos 2)) ∷ got (bytes hi) ∷ [];
  writes = wrote 18 ∷ [];
  clock = [];
}

typing-Asks : Asks typing b'h' (b'i' ∷ newline ∷ []) hi hi
unfolding chomp
typing-Asks = record {
  typed = refl;
  chomped = refl;
  room = omega arith;
  line = hi-IsLine;
  delivers = (omega arith, tt);
  answered = refl;
  reply_line = hi-IsLine;
}

client_round-Asks_example :
    (m : Mesg) × (client_round blank typing
      ≡ returned (record { over = false; mesg = m; sent = header 1 (pos 2) ++ bytes hi }))
    × (c_string m.mesg_data ≡ bytes hi)
    × (m.mesg_len ≡ pos 2)
unfolding if_run
client_round-Asks_example =
    client_round-Asks blank typing b'h' (b'i' ∷ newline ∷ []) hi hi typing-Asks refl
