-- ===== src/Dialogue/Echo.antt =====
-- A round of the service: what comes in, and what goes out.
use unix_ipc_note.Base.{
  ℕ, ◌+◌, ◌<◌, ◌≡◌, refl, ◌≢◌, ap, ◌∙◌, sym, true, false, List, [], ◌∷◌, ◌++◌, length, take, drop,
  replicate, length-append, length-take, append_assoc, pos, arith, ◌==◌, Bool-cases, inl, inr,
  if◌then◌else◌,
}
use unix_ipc_note.System.{returned, ReadAnswer, got, WriteAnswer}
use unix_ipc_note.UnixIo.{newline, overlay}
use unix_ipc_note.UnixIo.WriteLaws.{Delivers}
use unix_ipc_note.Words.{c_string, if_run}
use unix_ipc_note.Words.Strings.{NoZero, c_string-append}
use unix_ipc_note.Mesg.{Mesg, mesg_max_data, header, Mesg_send, Mesg_recv}
use unix_ipc_note.Mesg.Transfer.{Mesg_send_lem, Mesg_recv_lem}
use unix_ipc_note.Dialogue.{
  quit, time_cmd, Turn, clock_text, addressed, service_text, send_back, service_reply,
  service_round,
}

-- A line of two bytes or more, with its last byte named.
pub record Line : Type 0 where
  pub text : List ℕ
  pub last : ℕ

abbrev pub bytes : Line → List ℕ
bytes l = l.text ++ l.last ∷ []

-- No 0 in the line, no newline at its end, and it leaves a byte of the data free.
pub record IsLine (l : Line) : Type 0 where
  pub no_zero : NoZero (bytes l)
  pub no_newline : l.last ≢ newline
  pub has_text : 0 < length l.text
  pub fits : length l.text + 1 < mesg_max_data

-- The header and the payload of the line as a message of the client.
abbrev pub arriving : Line → List ReadAnswer
arriving l = got (header 1 (pos (length l.text + 1))) ∷ got (bytes l) ∷ []

-- A message whose data begins with a terminated text goes out as its header and the text.
pub send_text :
    (mesg_type : ℕ) (payload rest : List ℕ) (ws : List WriteAnswer)
    → NoZero payload
    → length payload < 9223372036854775792
    → Delivers ws (16 + length payload)
    → Mesg_send (addressed mesg_type (payload ++ 0 ∷ rest)) ws
      ≡ returned (record {
        value = pos (16 + length payload);
        sent = header mesg_type (pos (length payload)) ++ payload;
      })
unfolding addressed
send_text mesg_type payload rest ws whole small d =
    rw (c_string-append payload rest whole) (Mesg_send_lem mesg_type payload (0 ∷ rest) ws small d)

-- The clock's text is 24 bytes long, the newline of ctime(3) not counted.
abbrev pub clock_line : Turn → List ℕ
clock_line t = take 24 t.clock ++ newline ∷ []

clock_text_lem :
    (clock old : List ℕ)
    → (rest : List ℕ) × (clock_text clock old ≡ (take 24 clock ++ newline ∷ []) ++ 0 ∷ rest)
unfolding clock_text
clock_text_lem clock old =
    let over = take 24 clock ++ newline ∷ 0 ∷ [] in
    let rest = drop (length over) (overlay (replicate 64 0) old) in
    (
      rest,
      append_assoc (take 24 clock) (newline ∷ 0 ∷ []) rest
          ∙ sym (append_assoc (take 24 clock) (newline ∷ []) (0 ∷ rest)),
    )

-- What the service answers to a request.
abbrev pub answer : Turn → List ℕ → List ℕ
answer t request = if if_run time_cmd request then clock_line t else request

service_text_lem :
    (t : Turn) (m : Mesg) (request rest : List ℕ)
    → m.mesg_data ≡ request ++ 0 ∷ rest
    → NoZero request
    → (rest' : List ℕ) × (service_text t m ≡ answer t request ++ 0 ∷ rest')
unfolding service_text
service_text_lem t m request rest there whole =
    let read : c_string m.mesg_data ≡ request =
      ap c_string there ∙ c_string-append request rest whole in
    let clock = clock_text_lem t.clock m.mesg_data in
    elim (Bool-cases (if_run time_cmd request)) [
      | inl e ↦ (clock.0, rw (read, e) (clock.1))
      | inr e ↦ (rest, rw (read, e) there)
    ]

send_back_lem :
    (t : Turn) (payload rest : List ℕ)
    → NoZero payload
    → length payload < 9223372036854775792
    → Delivers t.writes (16 + length payload)
    → send_back t (payload ++ 0 ∷ rest)
      ≡ returned (record {
        over = false;
        mesg = addressed 2 (payload ++ 0 ∷ rest);
        sent = header 2 (pos (length payload)) ++ payload;
      })
unfolding send_back
send_back_lem t payload rest whole small d =
    rw (send_text 2 payload rest t.writes whole small d, send_back) refl

-- A round of the service that is no request to quit: the struct afterwards, and the message that
-- goes out.
abbrev pub Replies : Mesg → Turn → List ℕ → Type 0
Replies old t payload =
    (m : Mesg) × (service_round old t
      ≡ returned
          (record { over = false; mesg = m; sent = header 2 (pos (length payload)) ++ payload }))

-- What the system does in a turn of the service: the line arrives, its answer is a text with no 0,
-- and the pipe takes the reply.
pub record Serves (t : Turn) (l : Line) : Type 0 where
  pub line : IsLine l
  pub arrives : t.pipe ≡ arriving l
  pub clock_whole : NoZero (clock_line t)
  pub delivers : Delivers t.writes (16 + length (answer t (bytes l)))

answer_whole : (t : Turn) (l : Line) → Serves t l → NoZero (answer t (bytes l))
answer_whole t l v = elim (Bool-cases (if_run time_cmd (bytes l))) [
  | inl e ↦ rw e (v.clock_whole)
  | inr e ↦ rw e (v.line.no_zero)
]

answer_short :
    (t : Turn) (l : Line) → Serves t l → length (answer t (bytes l)) < 9223372036854775792
answer_short t l v = elim (Bool-cases (if_run time_cmd (bytes l))) [
  | inl e ↦
      rw e (omega (arith, length-append (take 24 t.clock) (newline ∷ []), length-take 24 t.clock))
  | inr e ↦ rw e (omega (arith, v.line.fits, length-append l.text (l.last ∷ [])))
]

pub received : Mesg → Line → Mesg
received old l = record {
  mesg_type = 1;
  mesg_len = pos (length l.text + 1);
  mesg_data = l.text ++ l.last ∷ 0 ∷ drop (length l.text + 1 + 1) (0 ∷ drop 1 old.mesg_data);
}

recv_line :
    (old : Mesg) (l : Line)
    → IsLine l
    → Mesg_recv old (arriving l)
      ≡ returned
          (record { value = pos (16 + (length l.text + 1)); mesg = received old l; rest = [] })
unfolding received
recv_line old l v =
    let keeps : (l.last == newline) ≡ false = ground (arith, v.no_newline) in
    Mesg_recv_lem 1 l.last l.text old [] (omega arith) (omega (arith, v.has_text))
      (omega (arith, v.fits))
    ∙ rw keeps refl

received_text :
    (old : Mesg) (l : Line) → (rest : List ℕ) × ((received old l).mesg_data ≡ bytes l ++ 0 ∷ rest)
unfolding received
received_text old l =
    let rest = drop (length l.text + 1 + 1) (0 ∷ drop 1 old.mesg_data) in
    (rest, sym (append_assoc l.text (l.last ∷ []) (0 ∷ rest)))

received_string : (old : Mesg) (l : Line) → IsLine l → c_string (received old l).mesg_data ≡ bytes l
received_string old l v =
    let (rest, landed) = received_text old l in
    ap c_string landed ∙ c_string-append (bytes l) rest v.no_zero

round_of :
    (old : Mesg) (t : Turn) (l : Line)
    → IsLine l
    → t.pipe ≡ arriving l
    → service_round old t ≡ service_reply t (received old l)
unfolding service_round
round_of old t l v e = let heard = ap (Mesg_recv old) e ∙ recv_line old l v in ground (arith, heard)

-- The service in a turn in which a line other than "quit" arrives sends back the line, as a message of
-- type 2, or, for a line that begins with "time", the first 24 bytes of the clock's text and a newline.
pub service_round-Replies :
    (old : Mesg) (t : Turn) (l : Line)
    → Serves t l
    → if_run quit (bytes l) ≡ false
    → Replies old t (answer t (bytes l))
unfolding service_reply
service_round-Replies old t l v goes_on =
    let (rest, landed) = received_text old l in
    let (rest', chosen) =
      service_text_lem t (received old l) (bytes l) rest landed v.line.no_zero in
    (
      addressed 2 (answer t (bytes l) ++ 0 ∷ rest'),
      round_of old t l v.line v.arrives
          ∙ rw (received_string old l v.line, goes_on, chosen)
              (send_back_lem t (answer t (bytes l)) rest' (answer_whole t l v) (answer_short t l v)
                v.delivers),
    )

-- A line that is "quit" or begins with it ends the loop, and nothing is sent.
pub service_round_quits :
    (old : Mesg) (t : Turn) (l : Line)
    → IsLine l
    → t.pipe ≡ arriving l
    → if_run quit (bytes l) ≡ true
    → service_round old t ≡ returned (record { over = true; mesg = received old l; sent = [] })
unfolding service_reply
service_round_quits old t l v e stops =
    round_of old t l v e ∙ rw (received_string old l v, stops) refl
