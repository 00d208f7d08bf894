-- ===== src/Broadcast/Notices.antt =====
-- What arrives of what is sent.
use unix_ipc_note.Base.{
  ℕ, suc, ◌+◌, ◌≤◌, ◌<◌, ◌≡◌, refl, ap, ◌∙◌, true, List, [], ◌∷◌, ◌++◌, length, drop, replicate,
  length-append, length-drop, length-set, append_assoc, append-nil, map, set-last, arith,
}
use unix_ipc_note.System.{returned, ReadAnswer, got, done}
use unix_ipc_note.UnixIo.{overlay}
use unix_ipc_note.Words.Strings.{NoZero, c_string-append, NoZero-append}
use unix_ipc_note.Words.{c_string}
use unix_ipc_note.Broadcast.{
  maxline, Printed, terminate, recv_loop, recv_all, Utsname, find_first_of, heading, number,
  send_loop, host_lines, send_all,
}

length-terminate :
    (bs buf : List ℕ) → length bs ≤ length buf → length (terminate bs buf) ≡ length buf
unfolding terminate
length-terminate bs buf h = omega (
  arith,
  length-set (overlay bs buf) (length bs) 0,
  length-append bs (drop (length bs) buf),
  length-drop (length bs) buf,
)

-- A list that is not empty.
cut_at : (ys : List ℕ) → 0 < length ys → (y : ℕ) × (zs : List ℕ) × (ys ≡ y ∷ zs)
cut_at [] h = absurd (omega arith)
cut_at (y ∷ zs) h = (y, zs, refl)

-- A datagram with no 0 that is shorter than the buffer is printed as it came.
c_string-terminate :
    (bs buf : List ℕ) → NoZero bs → length bs < length buf → c_string (terminate bs buf) ≡ bs
unfolding terminate
c_string-terminate bs buf h fits =
    let (y, zs, e) = cut_at (drop (length bs) buf) (omega (arith, length-drop (length bs) buf)) in
    rw (e, set-last bs zs y 0) (c_string-append bs zs h)

-- Texts that the receiver prints whole.
abbrev pub Printable : List (List ℕ) → Type 0
Printable [] = Unit
Printable (t ∷ ts) = (0 < length t) × (length t ≤ maxline) × NoZero t × Printable ts

pub recv_loop-texts :
    (ts : List (List ℕ)) (buf : List ℕ) (out : Printed) (es : List ReadAnswer)
    → Printable ts
    → length buf ≡ maxline + 1
    → recv_loop buf out (map got ts ++ got [] ∷ es)
      ≡ returned (record out { cout = out.cout ++ ts })
unfolding recv_loop
recv_loop-texts [] buf out es h e = rw (append-nil out.cout) refl
recv_loop-texts ([] ∷ ts) buf out es h e = absurd (omega arith)
recv_loop-texts ((b ∷ bs) ∷ ts) buf out es (some_bytes, short, plain, more) e =
    let text = b ∷ bs in
    let buf' = terminate text buf in
    ap (λ t. recv_loop buf' (record out { cout = out.cout ++ t ∷ [] }) (map got ts ++ got [] ∷ es))
      (c_string-terminate text buf plain (omega arith))
    ∙ recv_loop-texts ts buf' (record out { cout = out.cout ++ text ∷ [] }) es more
        (length-terminate text buf (omega arith) ∙ e)
    ∙ rw (append_assoc out.cout (text ∷ []) ts) refl

pub recv_all_lem :
    (ts : List (List ℕ)) (es : List ReadAnswer)
    → Printable ts
    → recv_all (map got ts ++ got [] ∷ es) ≡ returned (record { cout = ts; errors = 0 })
unfolding recv_all
recv_all_lem ts es h =
    recv_loop-texts ts (replicate (maxline + 1) 0) (record { cout = []; errors = 0 }) es h refl

-- The text with a number of one digit.
abbrev pub notice : ℕ → List ℕ → List ℕ
notice digit lines =
    b'-' ∷ b'-' ∷ b'-' ∷ b'-' ∷ b'-' ∷ b'-' ∷ b'-' ∷ b'-' ∷ b'-' ∷ b' ' ∷ b'N' ∷ b'O' ∷ b':' ∷ b'0'
    ∷ digit ∷ lines

abbrev pub notices : List ℕ → List (List ℕ)
notices lines =
    map (λ d. notice d lines) (b'1' ∷ b'2' ∷ b'3' ∷ b'4' ∷ b'5' ∷ b'6' ∷ b'7' ∷ b'8' ∷ b'9' ∷ [])

place_found : (lines : List ℕ) → find_first_of 0 (b'N' ∷ b'O' ∷ b':' ∷ []) (heading ++ lines) ≡ 10
unfolding find_first_of
place_found lines = refl

send_loop_lem :
    (fuel : ℕ) (lines : List ℕ)
    → send_loop (10 + fuel) 10 0 (heading ++ lines) []
      ≡ returned (record { datagrams = notices lines ++ [] ∷ []; shut = true })
unfolding send_loop number
send_loop_lem fuel lines =
    let e : 10 + fuel ≡ suc (suc (suc (suc (suc (suc (suc (suc (suc (suc fuel))))))))) =
      omega arith in
    ap (λ n. send_loop n 10 0 (heading ++ lines) []) e

notices-Printable :
    (lines digits : List ℕ)
    → NoZero lines
    → NoZero digits
    → 15 + length lines ≤ maxline
    → Printable (map (λ d. notice d lines) digits)
notices-Printable lines [] h k fits = tt
notices-Printable lines (d ∷ digits) h k fits = (
  omega arith,
  omega arith,
  NoZero-append heading_front (d ∷ lines) front (k.0, h),
  notices-Printable lines digits h k.1 fits,
)
  where
    heading_front : List ℕ
    heading_front =
        b'-' ∷ b'-' ∷ b'-' ∷ b'-' ∷ b'-' ∷ b'-' ∷ b'-' ∷ b'-' ∷ b'-' ∷ b' ' ∷ b'N' ∷ b'O' ∷ b':'
        ∷ b'0' ∷ []

    front : NoZero heading_front
    front = ground arith

-- For lines on the host that hold no 0 and leave the text within 4096 bytes: `send_all` comes to its end
-- and shuts the socket, having sent the text nine times, numbered 01 to 09, and then an empty datagram;
-- and `recv_all`, which receives these datagrams and then any others, prints the nine texts whole, in
-- this order, and ends.
pub notices_arrive :
    (label : ℕ → List ℕ) (fuel pid : ℕ) (u : Utsname) (es : List ReadAnswer)
    → NoZero (host_lines label pid u)
    → 15 + length (host_lines label pid u) ≤ maxline
    → let texts = notices (host_lines label pid u) in
      (send_all label (10 + fuel) pid (done u)
        ≡ returned (record { datagrams = texts ++ [] ∷ []; shut = true }))
      × (recv_all (map got (texts ++ [] ∷ []) ++ es)
          ≡ returned (record { cout = texts; errors = 0 }))
unfolding send_all
notices_arrive label fuel pid u es h fits =
    let lines = host_lines label pid u in
    let digits = b'1' ∷ b'2' ∷ b'3' ∷ b'4' ∷ b'5' ∷ b'6' ∷ b'7' ∷ b'8' ∷ b'9' ∷ [] in
    (
      rw (place_found lines) (send_loop_lem fuel lines),
      recv_all_lem (notices lines) es (notices-Printable lines digits h (ground arith) fits),
    )
