-- ===== src/Wrappers/Receive.antt =====
-- `Mq_receive` and `Msgrcv`: what arrives in the buffer.
use unix_ipc_note.Base.{
  some, false, Bool-cases, inl, inr, take-front, take-set, ℕ, zero, suc, ◌+◌, ◌-◌, ◌<◌, ◌≤◌, ◌≡◌,
  ◌≢◌, refl, ap, ◌∙◌, sym, List, [], ◌∷◌, ◌++◌, length, length-append, take, drop, replicate,
  get_or, pos, minus_one, arith, append_assoc, ◌==◌, if◌then◌else◌,
}
use unix_ipc_note.System.{Errno, eagain, returned, exited, done, failed}
use unix_ipc_note.UnixIo.{newline, try_again, overlay}
use unix_ipc_note.UnixIo.ReadLaws.{chomp, cut, length-chomp, trim-chomp, trim-at, drop-replicate}
use unix_ipc_note.Mesg.{to_bytes}
use unix_ipc_note.Mesg.Longs.{length-to_bytes_eight}
use unix_ipc_note.Wrappers.{Mq_receive, Msgrcv, cleared, Fgets, Gotten, strip_at_end}

-- A message that is not empty and fits the buffer of `Mq_receive` in mode 1: its length is the value and the buffer holds it,
-- one final newline taken off, with zeros behind it. Where the queue is empty and not to be waited
-- for, the value is -1234 and the buffer is zero; every other error leaves the process with -1.
pub Mq_receive_text :
    (len b : ℕ) (bs : List ℕ)
    → length (b ∷ bs) ≤ len
    → let text = chomp (b ∷ bs) in
      (Mq_receive len 1 (done (b ∷ bs))
        ≡ returned (record {
          value = pos (length text);
          buffer = text ++ replicate (len - length text) 0;
        }))
      × (Mq_receive len 1 (failed eagain)
          ≡ returned (record { value = try_again; buffer = replicate len 0 }))
      × ((e : Errno) → e ≢ eagain → Mq_receive len 1 (failed e) ≡ exited minus_one)
unfolding Mq_receive
Mq_receive_text len b bs fits = (
  rw (drop-replicate (length (b ∷ bs)) len, trim-chomp b bs (len - length (b ∷ bs)), pad) refl,
  refl,
  fails,
)
  where
    pad : cut (b ∷ bs) + (len - length (b ∷ bs)) ≡ len - length (chomp (b ∷ bs))
    pad = omega (arith, length-chomp (b ∷ bs))

    fails : (e : Errno) → e ≢ eagain → Mq_receive len 1 (failed e) ≡ exited minus_one
    fails Errno.eagain h = absurd (h refl)
    fails e h = refl

-- A message whose text has nine bytes or more: `Msgrcv` in mode 1 looks for the newline in the ninth
-- byte from the end of the text, since the type stands in front of the text in memory. Where a
-- newline is there, it is overwritten in the middle of the text and taken off the value; whatever
-- the last byte is, it stays.
pub Msgrcv_ninth :
    (msgsz t c : ℕ) (front last old : List ℕ)
    → length last ≡ 8
    → let text = front ++ c ∷ last in
      let n = length front + 9 in
      let tail = drop (8 + n) (cleared msgsz old) in
      Msgrcv msgsz 1 old (done (record { mtype = t; mtext = text }))
      ≡ returned (record {
        value = pos (if c == newline then n - 1 else n);
        buffer = to_bytes 8 t ++ (front ++ (if c == newline then 0 else c) ∷ (last ++ tail));
      })
unfolding Msgrcv
Msgrcv_ninth msgsz t c front last old e =
    let eight = length-to_bytes_eight t in
    let n : length (front ++ c ∷ last) ≡ length front + 9 =
      omega (arith, length-append front (c ∷ last)) in
    let before : length front + 9 ≡ length (to_bytes 8 t ++ front) + 1 =
      omega (arith, length-append (to_bytes 8 t) front) in
    let whole : length (to_bytes 8 t ++ (front ++ c ∷ last)) ≡ 8 + (length front + 9) =
      omega (arith, length-append (to_bytes 8 t) (front ++ c ∷ last)) in
    let tail = drop (8 + (length front + 9)) (cleared msgsz old) in
    let shape : (to_bytes 8 t ++ (front ++ c ∷ last)) ++ tail
        ≡ (to_bytes 8 t ++ front) ++ c ∷ (last ++ tail) =
      append_assoc (to_bytes 8 t) (front ++ c ∷ last) tail
      ∙ ap (λ l. to_bytes 8 t ++ l) (append_assoc front (c ∷ last) tail)
      ∙ sym (append_assoc (to_bytes 8 t) front (c ∷ (last ++ tail))) in
    let trimmed =
      trim-at (length front + 9) c (to_bytes 8 t ++ front) (last ++ tail) (omega arith) before in
    rw
      (
        n,
        whole,
        shape,
        trimmed,
        append_assoc (to_bytes 8 t) front ((if c == newline then 0 else c) ∷ (last ++ tail)),
      )
      refl

take_all : (n : ℕ) (xs : List ℕ) → length xs ≤ n → take n xs ≡ xs
take_all zero [] h = refl
take_all zero (x ∷ xs) h = absurd (omega arith)
take_all (suc n) [] h = refl
take_all (suc n) (x ∷ xs) h = ap (λ l. x ∷ l) (take_all n xs (omega arith))

-- Where the line fits, `Fgets` leaves it in the buffer with its newline, if it has one: the byte that
-- is tested lies behind the line.
pub Fgets_keeps :
    (numc : ℕ) (old line : List ℕ)
    → length line < numc
    → (g : Gotten) × (Fgets numc old (done (some line)) ≡ returned g)
      × (g.is_null ≡ false)
      × (take (length line) g.buffer ≡ line)
unfolding Fgets
Fgets_keeps numc old line h = (_, refl, refl, rw (take_all (numc - 1) line (omega arith)) in_front)
  where
    stored : List ℕ
    stored = overlay (line ++ 0 ∷ []) old

    kept : take (length line) stored ≡ line
    kept = rw (append_assoc line (0 ∷ []) (drop (length (line ++ 0 ∷ [])) old)) (take-front line _)

    in_front : take (length line) (strip_at_end numc stored) ≡ line
    in_front = elim (Bool-cases (get_or stored (numc - 1) 0 == newline)) [
      | inl e ↦ rw (e, take-set stored (length line) (numc - 1) 0 (omega arith)) kept
      | inr e ↦ rw e kept
    ]
