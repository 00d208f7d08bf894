-- ===== src/MsgExchange/Carried.antt =====
-- What a struct msg_data carries over the queue.
use unix_ipc_note.Base.{
  zero, suc, refl, replicate, ℤ, ◌<◌, ℕ, ◌+◌, ◌-◌, ◌≤◌, ◌≡◌, ap, sym, ◌∙◌, List, [], ◌∷◌, ◌++◌,
  length, take, drop, length-append, length-take, append_assoc, drop-front, take-length_add, pos,
  ◌==◌, Bool-cases, inl, inr, arith, if◌then◌else◌,
}
use unix_ipc_note.System.{returned, done}
use unix_ipc_note.UnixIo.{newline}
use unix_ipc_note.Words.{c_string}
use unix_ipc_note.Words.Strings.{NoZero, c_string-append}
use unix_ipc_note.Mesg.{to_bytes}
use unix_ipc_note.Mesg.Longs.{length-to_bytes_eight}
use unix_ipc_note.Wrappers.{Msgrcv, cleared}
use unix_ipc_note.Wrappers.Receive.{Msgrcv_ninth}
use unix_ipc_note.MsgExchange.{
  msg_data_header, sizeof_msg_data, max_text, msg_data_size, Struct, sent_text, data_of,
}

-- A struct whose text ends in `c`, with a 0 and `stale` behind it in the 128 bytes of `data`, and with seven
-- bytes or more of memory behind that 0.
pub record Holds (s : Struct) (init : List ℕ) (c : ℕ) (stale : List ℕ) : Type 0 where
  pub middle_size : length s.middle ≡ 16
  pub text_is : s.text ≡ (init ++ c ∷ []) ++ 0 ∷ stale
  pub whole : length s.text ≡ msg_data_size
  pub plain : NoZero (init ++ c ∷ [])
  pub enough : 7 ≤ length (stale ++ s.behind)

-- The eight bytes from the terminating 0 on.
abbrev pub eight_behind : Struct → List ℕ → List ℕ
eight_behind s stale = take 8 (0 ∷ (stale ++ s.behind))

sent_text_lem :
    (s : Struct) (init : List ℕ) (c : ℕ) (stale : List ℕ)
    → Holds s init c stale
    → sent_text s ≡ s.middle ++ ((init ++ c ∷ []) ++ eight_behind s stale)
unfolding sent_text
sent_text_lem s init c stale h =
    let word = init ++ c ∷ [] in
    let found : c_string s.text ≡ word =
      ap c_string h.text_is ∙ c_string-append word stale h.plain in
    let count : msg_data_header + length (c_string s.text) ≡ length s.middle + (length word + 8) =
      omega (arith, ap length found, h.middle_size) in
    let memory : s.text ++ s.behind ≡ word ++ 0 ∷ (stale ++ s.behind) =
      ap (λ t. t ++ s.behind) h.text_is ∙ append_assoc word (0 ∷ stale) s.behind in
    ap (λ n. take n (s.middle ++ (s.text ++ s.behind))) count
    ∙ take-length_add s.middle (s.text ++ s.behind) (length word + 8)
    ∙ ap (λ m. s.middle ++ take (length word + 8) m) memory
    ∙ ap (λ m. s.middle ++ m) (take-length_add word (0 ∷ (stale ++ s.behind)) 8)

-- The text without the newline that may end it.
abbrev pub less_newline : List ℕ → ℕ → List ℕ
less_newline init c = if c == newline then init else init ++ c ∷ []

NoZero-front : (xs ys : List ℕ) → NoZero (xs ++ ys) → NoZero xs
NoZero-front [] ys h = tt
NoZero-front (x ∷ xs) ys h = (h.0, NoZero-front xs ys h.1)

c_string_cut :
    (init : List ℕ) (c : ℕ) (more : List ℕ)
    → NoZero (init ++ c ∷ [])
    → c_string (init ++ (if c == newline then 0 else c) ∷ (0 ∷ more)) ≡ less_newline init c
c_string_cut init c more plain = elim (Bool-cases (c == newline)) [
  | inl e ↦ rw e (c_string-append init (0 ∷ more) (NoZero-front init (c ∷ []) plain))
  | inr e ↦ rw e (
      ap c_string (sym (append_assoc init (c ∷ []) (0 ∷ more)))
      ∙ c_string-append (init ++ c ∷ []) more plain)
]

data_of_lem :
    (t : ℕ) (middle init : List ℕ) (c : ℕ) (more : List ℕ)
    → length middle ≡ 16
    → NoZero (init ++ c ∷ [])
    → data_of (to_bytes 8 t ++ ((middle ++ init) ++ (if c == newline then 0 else c) ∷ (0 ∷ more)))
      ≡ less_newline init c
data_of_lem t middle init c more sixteen plain =
    let rest = (if c == newline then 0 else c) ∷ (0 ∷ more) in
    let head = to_bytes 8 t ++ middle in
    let size : msg_data_header ≡ length head =
      omega (arith, length-append (to_bytes 8 t) middle, length-to_bytes_eight t, sixteen) in
    let shape : to_bytes 8 t ++ ((middle ++ init) ++ rest) ≡ head ++ (init ++ rest) =
      ap (λ l. to_bytes 8 t ++ l) (append_assoc middle init rest)
      ∙ sym (append_assoc (to_bytes 8 t) middle (init ++ rest)) in
    ap (λ l. c_string (drop msg_data_header l)) shape
    ∙ ap (λ n. c_string (drop n (head ++ (init ++ rest)))) size
    ∙ ap c_string (drop-front head (init ++ rest))
    ∙ c_string_cut init c more plain

eight_behind_size :
    (s : Struct) (stale : List ℕ)
    → 7 ≤ length (stale ++ s.behind)
    → length (eight_behind s stale) ≡ 8
eight_behind_size s stale h = ground (arith, length-take 7 (stale ++ s.behind))

value_lem :
    (middle init : List ℕ) (c : ℕ)
    → length middle ≡ 16
    → (if c == newline then length (middle ++ init) + 9 - 1 else length (middle ++ init) + 9)
      ≡ msg_data_header + length (less_newline init c)
value_lem middle init c sixteen =
    let whole = length-append middle init in
    let one_more = length-append init (c ∷ []) in
    elim (Bool-cases (c == newline)) [
      | inl e ↦ rw e (omega (arith, whole, sixteen))
      | inr e ↦ rw e (omega (arith, whole, sixteen, one_more))
    ]

drop-drop : (a b : ℕ) (xs : List ℕ) → drop a (drop b xs) ≡ drop (b + a) xs
drop-drop a zero xs = let e : 0 + a ≡ a = omega arith in rw e refl
drop-drop zero (suc b) [] = let e : suc b + 0 ≡ suc (b + 0) = omega arith in rw e refl
drop-drop (suc a) (suc b) [] = let e : suc b + suc a ≡ suc (b + suc a) = omega arith in rw e refl
drop-drop a (suc b) (x ∷ xs) =
    let e : suc b + a ≡ suc (b + a) = omega arith in rw e (drop-drop a b xs)

drop-over : (k : ℕ) (xs ys : List ℕ) → length xs ≤ k → drop k (xs ++ ys) ≡ drop (k - length xs) ys
drop-over k [] ys h = let e : k - 0 ≡ k = omega arith in rw e refl
drop-over zero (x ∷ xs) ys h = absurd (omega arith)
drop-over (suc k) (x ∷ xs) ys h =
    let e : suc k - suc (length xs) ≡ k - length xs = omega arith in
    rw e (drop-over k xs ys (omega arith))

drop-zeros : (k : ℕ) (ys : List ℕ) → drop k (replicate k 0 ++ ys) ≡ ys
drop-zeros zero ys = refl
drop-zeros (suc k) ys = drop-zeros k ys

-- Memory of which `xs` are written, no more than the bytes that have been cleared.
kept_behind :
    (k : ℕ) (xs old : List ℕ)
    → length xs ≤ k
    → drop k (xs ++ drop (length xs) (cleared k old)) ≡ drop k old
kept_behind k xs old h =
    let e : length xs + (k - length xs) ≡ k = omega (arith, h) in
    drop-over k xs (drop (length xs) (cleared k old)) h
    ∙ drop-drop (k - length xs) (length xs) (cleared k old)
    ∙ rw e (drop-zeros k (drop k old))

-- What Msgrcv leaves.
abbrev left_by : Struct → List ℕ → ℕ → List ℕ → List ℕ → List ℕ
left_by s init c stale old =
    let n = length (s.middle ++ init) + 9 in
    to_bytes 8 s.mtype
    ++ ((s.middle ++ init)
        ++ (if c == newline then 0 else c)
          ∷ (eight_behind s stale ++ drop (8 + n) (cleared sizeof_msg_data old)))

Msgrcv_lem :
    (s : Struct) (init : List ℕ) (c : ℕ) (stale old : List ℕ)
    → Holds s init c stale
    → Msgrcv sizeof_msg_data 1 old (done (record { mtype = s.mtype; mtext = sent_text s }))
      ≡ returned (record {
        value = pos (msg_data_header + length (less_newline init c));
        buffer = left_by s init c stale old;
      })
Msgrcv_lem s init c stale old h =
    let front = s.middle ++ init in
    let last = eight_behind s stale in
    ap (λ t. Msgrcv sizeof_msg_data 1 old (done (record { mtype = s.mtype; mtext = t })))
      (sent_text_lem s init c stale h
        ∙ ap (λ l. s.middle ++ l) (append_assoc init (c ∷ []) last)
        ∙ sym (append_assoc s.middle init (c ∷ last)))
    ∙ Msgrcv_ninth sizeof_msg_data s.mtype c front last old (eight_behind_size s stale h.enough)
    ∙ ap (λ v. returned (record { value = pos v; buffer = left_by s init c stale old }))
        (value_lem s.middle init c h.middle_size)

-- The bytes that are written: 32 and the text's length.
written :
    (s : Struct) (init : List ℕ) (c : ℕ) (stale old : List ℕ)
    → Holds s init c stale
    → (xs : List ℕ) × (length xs ≡ length init + 33)
      × (left_by s init c stale old ≡ xs ++ drop (length xs) (cleared sizeof_msg_data old))
written s init c stale old h =
    let mark : ℕ = if c == newline then 0 else c in
    let tail : List ℕ = drop (8 + (length (s.middle ++ init) + 9)) (cleared sizeof_msg_data old) in
    let xs : List ℕ = to_bytes 8 s.mtype ++ ((s.middle ++ init) ++ mark ∷ eight_behind s stale) in
    let size : length xs ≡ length init + 33 = omega (
      arith,
      length-append (to_bytes 8 s.mtype) ((s.middle ++ init) ++ mark ∷ eight_behind s stale),
      length-append (s.middle ++ init) (mark ∷ eight_behind s stale),
      length-append s.middle init,
      h.middle_size,
      length-to_bytes_eight s.mtype,
      eight_behind_size s stale h.enough,
    ) in
    let place : 8 + (length (s.middle ++ init) + 9) ≡ length xs =
      omega (arith, size, length-append s.middle init, h.middle_size) in
    (
      xs,
      size,
      rw (← place) (
          sym (
            append_assoc (to_bytes 8 s.mtype) ((s.middle ++ init) ++ mark ∷ eight_behind s stale)
              tail
            ∙ ap (λ l. to_bytes 8 s.mtype ++ l)
                (append_assoc (s.middle ++ init) (mark ∷ eight_behind s stale) tail))),
    )

-- A struct msg_data whose text has 1 to 120 bytes, none of them 0, and stands in `data` with a 0 behind it, sent
-- with MSG_DATA_sendLEN and received by Msgrcv into a struct of any content: msgsnd is given the eight bytes
-- from that 0 on as well, since the header in MSG_DATA_sendLEN counts mtype; by the same eight bytes Msgrcv
-- tests the text's last byte for a newline; the receiver finds the text in `data`, less one final newline,
-- with a value of the text's length and 24; and nothing behind its struct changes.
pub data_carried :
    (s : Struct) (init : List ℕ) (c : ℕ) (stale old : List ℕ)
    → Holds s init c stale
    → length init + 1 ≤ max_text
    → (sent_text s ≡ s.middle ++ ((init ++ c ∷ []) ++ eight_behind s stale))
      × (buffer : List ℕ) × (Msgrcv sizeof_msg_data 1 old
            (done (record { mtype = s.mtype; mtext = sent_text s }))
          ≡ returned (record {
            value = pos (msg_data_header + length (less_newline init c));
            buffer = buffer;
          }))
      × (data_of buffer ≡ less_newline init c)
      × (drop sizeof_msg_data buffer ≡ drop sizeof_msg_data old)
data_carried s init c stale old h short =
    let (xs, size, shape) = written s init c stale old h in
    (
      sent_text_lem s init c stale h,
      left_by s init c stale old,
      Msgrcv_lem s init c stale old h,
      data_of_lem s.mtype s.middle init c
          (take 7 (stale ++ s.behind)
            ++ drop (8 + (length (s.middle ++ init) + 9)) (cleared sizeof_msg_data old))
          h.middle_size h.plain,
      ap (drop sizeof_msg_data) shape
          ∙ kept_behind sizeof_msg_data xs old (omega (arith, size, short)),
    )

-- A text of 121 to 127 bytes, which `data` has room for: with the type and what MSG_DATA_sendLEN adds it is
-- longer than the struct, and though msgsz is the struct's size, Msgrcv writes behind it: of a memory of just
-- 152 bytes it leaves more.
pub data_overruns :
    (s : Struct) (init : List ℕ) (c : ℕ) (stale old : List ℕ)
    → Holds s init c stale
    → max_text < length init + 1
    → length old ≡ sizeof_msg_data
    → (length init + 1 < msg_data_size)
      × (length (sent_text s) ≤ sizeof_msg_data)
      × (value : ℤ) × (buffer : List ℕ) × (Msgrcv sizeof_msg_data 1 old
            (done (record { mtype = s.mtype; mtext = sent_text s }))
          ≡ returned (record { value = value; buffer = buffer }))
      × (sizeof_msg_data < length buffer)
data_overruns s init c stale old h long room =
    let (xs, size, shape) = written s init c stale old h in
    let word = length-append init (c ∷ []) in
    let in_data = length-append (init ++ c ∷ []) (0 ∷ stale) in
    let sent = sent_text_lem s init c stale h in
    let parts = length-append s.middle ((init ++ c ∷ []) ++ eight_behind s stale) in
    let end = length-append (init ++ c ∷ []) (eight_behind s stale) in
    let eight = eight_behind_size s stale h.enough in
    let fits : length init + 1 < msg_data_size =
      omega (arith, h.whole, ap length h.text_is, in_data, word) in
    (
      fits,
      omega (arith, fits, ap length sent, parts, end, eight, h.middle_size, word),
      _,
      left_by s init c stale old,
      Msgrcv_lem s init c stale old h,
      omega (
        arith,
        ap length shape,
        length-append xs (drop (length xs) (cleared sizeof_msg_data old)),
        size,
        long,
      ),
    )
