-- ===== src/Dialogue/Ask.antt =====
-- A round of the client: a line is typed, goes out, and the answer is taken in.
use unix_ipc_note.Base.{
  ℕ, ◌+◌, ◌-◌, ◌<◌, ◌≡◌, refl, ap, ◌∙◌, sym, false, List, [], ◌∷◌, ◌++◌, length, drop, replicate,
  replicate-pos, length-append, append_assoc, pos, arith, ◌==◌,
}
use unix_ipc_note.System.{returned, got}
use unix_ipc_note.UnixIo.{Read, overlay, newline}
use unix_ipc_note.UnixIo.ReadLaws.{chomp, length-chomp, Read_text}
use unix_ipc_note.UnixIo.WriteLaws.{Delivers}
use unix_ipc_note.Words.{c_string, if_run}
use unix_ipc_note.Words.Strings.{c_string-append}
use unix_ipc_note.Mesg.{Mesg, mesg_max_data, header, Mesg_recv}
use unix_ipc_note.Mesg.Transfer.{Mesg_recv_lem}
use unix_ipc_note.Dialogue.{quit, Turn, addressed, client_receive, client_round}
use unix_ipc_note.Dialogue.Echo.{Line, bytes, IsLine, send_text}

-- The typed bytes are those of the line, perhaps with a newline behind; they fit the buffer; the pipe
-- takes the message, and the reply comes whole.
pub record Asks (t : Turn) (first : ℕ) (more : List ℕ) (l reply : Line) : Type 0 where
  pub typed : t.terminal ≡ got (first ∷ more) ∷ []
  pub chomped : chomp (first ∷ more) ≡ bytes l
  pub room : length (first ∷ more) < mesg_max_data
  pub line : IsLine l
  pub delivers : Delivers t.writes (16 + length (bytes l))
  pub answered : t.pipe ≡ got (header 2 (pos (length reply.text + 1))) ∷ got (bytes reply) ∷ []
  pub reply_line : IsLine reply

-- What is in the struct behind the read of the terminal.
typed_data :
    (t : Turn) (first : ℕ) (more : List ℕ) (l reply : Line) (old : List ℕ)
    → Asks t first more l reply
    → (buffer : List ℕ) × (rest : List ℕ) × (Read mesg_max_data 1 t.terminal
        ≡ returned (record { value = pos (length (bytes l)); buffer = buffer; rest = [] }))
      × (overlay buffer old ≡ bytes l ++ 0 ∷ rest)
typed_data t first more l reply old a =
    let left = mesg_max_data - length (bytes l) in
    let buffer = bytes l ++ replicate left 0 in
    let behind = drop (length buffer) old in
    let some_left : 0 < left =
      omega (arith, a.room, length-chomp (first ∷ more), ap length (a.chomped)) in
    (
      buffer,
      replicate (left - 1) 0 ++ behind,
      ap (Read mesg_max_data 1) (a.typed)
          ∙ Read_text mesg_max_data 0 first more [] (a.room)
          ∙ rw (a.chomped) refl,
      append_assoc (bytes l) (replicate left 0) behind
          ∙ ap (λ z. bytes l ++ (z ++ behind)) (replicate-pos left 0 some_left),
    )

-- What the client's struct holds behind the reply.
reply_in :
    (t : Turn) (first : ℕ) (more : List ℕ) (l reply : Line) (old : Mesg)
    → Asks t first more l reply
    → (m : Mesg) × (Mesg_recv old t.pipe
        ≡ returned (record { value = pos (16 + (length reply.text + 1)); mesg = m; rest = [] }))
      × (c_string m.mesg_data ≡ bytes reply)
      × (m.mesg_len ≡ pos (length reply.text + 1))
reply_in t first more l reply old a =
    let n = length reply.text + 1 in
    let tail = drop (n + 1) (0 ∷ drop 1 old.mesg_data) in
    let keeps : (reply.last == newline) ≡ false = ground (arith, a.reply_line.no_newline) in
    (
      record { mesg_type = 2; mesg_len = pos n; mesg_data = reply.text ++ reply.last ∷ 0 ∷ tail },
      ap (Mesg_recv old) (a.answered)
          ∙ Mesg_recv_lem 2 reply.last reply.text old [] (omega arith)
              (omega (arith, a.reply_line.has_text)) (omega (arith, a.reply_line.fits))
          ∙ rw keeps refl,
      ap c_string (sym (append_assoc reply.text (reply.last ∷ []) (0 ∷ tail)))
          ∙ c_string-append (bytes reply) tail a.reply_line.no_zero,
      refl,
    )

-- A round of the client in which a line is typed that does not begin with "quit": it comes from the terminal
-- in one read, fits the buffer, and has, less one final newline, at least two bytes, no 0 and no newline at
-- its end; the pipe takes the message; and the reply comes in two reads, its header and its text, which
-- has two to 4079 bytes, no 0 and no newline at its end, so that it is not the clock's. Then the line goes
-- out as a message of type 1, less that newline, the loop goes on, and the struct holds the reply.
pub client_round-Asks :
    (old : Mesg) (t : Turn) (first : ℕ) (more : List ℕ) (l reply : Line)
    → Asks t first more l reply
    → if_run quit (bytes l) ≡ false
    → (m : Mesg) × (client_round old t
        ≡ returned (record {
          over = false;
          mesg = m;
          sent = header 1 (pos (length (bytes l))) ++ bytes l;
        }))
      × (c_string m.mesg_data ≡ bytes reply)
      × (m.mesg_len ≡ pos (length reply.text + 1))
unfolding client_round client_receive addressed
client_round-Asks old t first more l reply a goes_on =
    let (buffer, rest, read, there) = typed_data t first more l reply old.mesg_data a in
    let struct : Mesg = addressed 1 (bytes l ++ 0 ∷ rest) in
    let (m, came, text, len) = reply_in t first more l reply struct a in
    let size = length-append l.text (l.last ∷ []) in
    let small : length (bytes l) < 9223372036854775792 = omega (arith, a.line.fits, size) in
    let some : (length (bytes l) == 0) ≡ false = ground (arith, size) in
    let string = c_string-append (bytes l) rest a.line.no_zero in
    let out = send_text 1 (bytes l) rest t.writes a.line.no_zero small a.delivers in
    (m, ground (arith, read, there, string, goes_on, out, came, some), text, len)
