-- ===== src/Mesg/Transfer.antt =====
-- What `Mesg_send` writes, `Mesg_recv` reads.
use unix_ipc_note.Base.{
  get_or-last, set-last, take-front, ℕ, zero, suc, ◌+◌, ◌-◌, ◌%◌, ◌<◌, ◌≡◌, refl, ap, ◌∙◌, true,
  List, [], ◌∷◌, ◌++◌, length, take, drop, replicate, length-append, pos, ltb, ◌==◌, if◌then◌else◌,
  arith, append_assoc,
}
use unix_ipc_note.System.{returned, ReadAnswer, got, WriteAnswer}
use unix_ipc_note.UnixIo.{Read, Written, newline, overlay}
use unix_ipc_note.UnixIo.ReadLaws.{Read_bytes}
use unix_ipc_note.UnixIo.WriteLaws.{Delivers, Write-Delivers}
use unix_ipc_note.Mesg.{
  mesg_max_data, Mesg, header, Mesg_send, strip_newline, read_payload, Mesg_recv,
}
use unix_ipc_note.Mesg.Longs.{
  long_back, length-header, header_type, header_len, header_rest, Read-header, from_bits_pos,
  is_pos_suc,
}

-- A message with the payload at the front of its data goes out as the header and the payload.
pub Mesg_send_lem :
    (t : ℕ) (payload unused : List ℕ) (es : List WriteAnswer)
    → length payload < 9223372036854775792
    → Delivers es (16 + length payload)
    → Mesg_send
        (record { mesg_type = t; mesg_len = pos (length payload); mesg_data = payload ++ unused })
        es
      ≡ returned (record {
        value = pos (16 + length payload);
        sent = header t (pos (length payload)) ++ payload;
      })
unfolding Mesg_send
Mesg_send_lem t payload unused es fits d =
    rw (size, bytes)
      (Write-Delivers (header t (pos (length payload)) ++ payload) es (rw whole d) ∙ rw whole refl)
  where
    size : (16 + length payload) % 18446744073709551616 ≡ 16 + length payload
    size = omega arith

    whole : length (header t (pos (length payload)) ++ payload) ≡ 16 + length payload
    whole = omega (
      arith,
      length-append (header t (pos (length payload))) payload,
      length-header t (length payload),
    )

    bytes :
        take (16 + length payload) (header t (pos (length payload)) ++ (payload ++ unused))
        ≡ header t (pos (length payload)) ++ payload
    bytes =
        rw (← append_assoc (header t (pos (length payload))) payload unused)
          (rw (← whole) (take-front (header t (pos (length payload)) ++ payload) unused))

-- What is in the data after a receipt: the payload and a 0 over what was there.
abbrev pub landed : List ℕ → List ℕ → List ℕ
landed payload old = payload ++ 0 ∷ drop (length payload + 1) (0 ∷ drop 1 old)

recv_header :
    (t n : ℕ) (old : Mesg) (es : List ReadAnswer)
    → t < 18446744073709551616
    → 0 < n
    → n < 9223372036854775807
    → Mesg_recv old (got (header t (pos n)) ∷ es)
      ≡ read_payload n
          (record { mesg_type = t; mesg_len = pos n; mesg_data = 0 ∷ drop 1 old.mesg_data })
          (Read (n + 1) 0 es)
unfolding Mesg_recv
recv_header t n old es ht hn fits =
    rw
      (
        Read-header t n es,
        header_rest t n (0 ∷ []),
        header_type t n (0 ∷ []),
        header_len t n (0 ∷ []),
        long_back t ht,
        long_back n (omega arith),
        from_bits_pos n (omega arith),
        is_pos_suc n hn,
      )
      refl

last_zero : (n : ℕ) → drop n (replicate {A = ℕ} (n + 1) 0) ≡ 0 ∷ []
last_zero zero = refl
last_zero (suc n) = let e : suc n + 1 ≡ suc (n + 1) = omega arith in rw e (last_zero n)

same-true : (n : ℕ) → (n == n) ≡ true
same-true n = ground arith

overlaid :
    (p old : List ℕ)
    → overlay (p ++ drop (length p) (replicate (length p + 1) 0)) (0 ∷ drop 1 old) ≡ landed p old
overlaid p old =
    rw
      (
        last_zero (length p),
        length-append p (0 ∷ []),
        append_assoc p (0 ∷ []) (drop (length p + 1) (0 ∷ drop 1 old)),
      )
      refl

read_payload_lem :
    (t b : ℕ) (bs old : List ℕ) (es : List ReadAnswer)
    → let n = length (b ∷ bs) in
      let m : Mesg = record { mesg_type = t; mesg_len = pos n; mesg_data = 0 ∷ drop 1 old } in
      read_payload n m (Read (n + 1) 0 (got (b ∷ bs) ∷ es))
      ≡ strip_newline n
          (record { mesg_type = t; mesg_len = pos n; mesg_data = landed (b ∷ bs) old })
          es
read_payload_lem t b bs old es =
    rw (Read_bytes (length (b ∷ bs) + 1) b bs es, same-true (length (b ∷ bs)))
      (ap
        (λ d.
          strip_newline (length (b ∷ bs))
            (record { mesg_type = t; mesg_len = pos (length (b ∷ bs)); mesg_data = d }) es)
        (overlaid (b ∷ bs) old))

payload_lem :
    (t n b : ℕ) (bs old : List ℕ) (es : List ReadAnswer)
    → n ≡ length (b ∷ bs)
    → read_payload n
        (record { mesg_type = t; mesg_len = pos n; mesg_data = 0 ∷ drop 1 old })
        (Read (n + 1) 0 (got (b ∷ bs) ∷ es))
      ≡ strip_newline n
          (record { mesg_type = t; mesg_len = pos n; mesg_data = landed (b ∷ bs) old })
          es
payload_lem t n b bs old es e = rw e (read_payload_lem t b bs old es)

received :
    (t c : ℕ) (text : List ℕ) (old : Mesg) (es : List ReadAnswer)
    → t < 18446744073709551616
    → 0 < length text
    → length text < mesg_max_data
    → let n = length text + 1 in
      Mesg_recv old (got (header t (pos n)) ∷ got (text ++ c ∷ []) ∷ es)
      ≡ strip_newline n
          (record {
            mesg_type = t;
            mesg_len = pos n;
            mesg_data = text ++ c ∷ 0 ∷ drop (n + 1) (0 ∷ drop 1 old.mesg_data);
          })
          es
received t c [] old es ht hx fits = absurd (omega arith)
received t c (x ∷ text) old es ht hx fits =
    let n : length (text ++ c ∷ []) ≡ length text + 1 = length-append text (c ∷ []) in
    let shift : suc (length text) + 1 ≡ suc (length text + 1) = omega arith in
    rw shift (
      recv_header t (suc (length text + 1)) old (got (x ∷ (text ++ c ∷ [])) ∷ es) ht (omega arith)
        (omega arith)
      ∙ payload_lem t (suc (length text + 1)) x (text ++ c ∷ []) old.mesg_data es (omega (arith, n))
      ∙ rw
          (
            n,
            append_assoc text (c ∷ [])
                (0 ∷ drop (suc (length text + 1) + 1) (0 ∷ drop 1 old.mesg_data)),
          )
          refl)

strip_newline_lem :
    (t c : ℕ) (text tail : List ℕ) (es : List ReadAnswer)
    → 0 < length text
    → strip_newline
        (length text + 1)
        (record { mesg_type = t; mesg_len = pos (length text + 1); mesg_data = text ++ c ∷ tail })
        es
      ≡ returned (record {
        value = pos (16 + (length text + 1));
        mesg =
            if c == newline
            then record {
              mesg_type = t;
              mesg_len = pos (length text);
              mesg_data = text ++ 0 ∷ tail;
            }
            else record {
              mesg_type = t;
              mesg_len = pos (length text + 1);
              mesg_data = text ++ c ∷ tail;
            };
        rest = es;
      })
strip_newline_lem t c text tail es h =
    let more : ltb 1 (length text + 1) ≡ true = ground arith in
    let last : length text + 1 - 1 ≡ length text = omega arith in
    let one : length text + 1 ≡ suc (length text) = omega arith in
    rw (more, last, get_or-last text tail c, set-last text tail c 0, one) refl

-- A message whose header and payload come whole, the last byte of the payload being `c`.
pub Mesg_recv_lem :
    (t c : ℕ) (text : List ℕ) (old : Mesg) (es : List ReadAnswer)
    → t < 18446744073709551616
    → 0 < length text
    → length text < mesg_max_data
    → let n = length text + 1 in
      let tail = 0 ∷ drop (n + 1) (0 ∷ drop 1 old.mesg_data) in
      Mesg_recv old (got (header t (pos n)) ∷ got (text ++ c ∷ []) ∷ es)
      ≡ returned (record {
        value = pos (16 + n);
        mesg =
            if c == newline
            then record {
              mesg_type = t;
              mesg_len = pos (length text);
              mesg_data = text ++ 0 ∷ tail;
            }
            else record { mesg_type = t; mesg_len = pos n; mesg_data = text ++ c ∷ tail };
        rest = es;
      })
Mesg_recv_lem t c text old es ht hx fits =
    received t c text old es ht hx fits
    ∙ strip_newline_lem t c text (0 ∷ drop (length text + 1 + 1) (0 ∷ drop 1 old.mesg_data)) es hx

-- A message of a type of 64 bits and a payload of two bytes or more, at most 4079, the last of
-- them `c`, is written by
-- `Mesg_send` whatever pieces the pipe takes, and read back by `Mesg_recv` where the pipe gives the
-- header and the payload whole: the type and the length are those sent and the payload lies at the
-- front of the data with a 0 behind it, except that a newline in the last place is replaced by a 0
-- and taken off the length. The value counts the header and the payload, that newline included.
pub Mesg_recv-Mesg_send :
    (t c : ℕ) (text unused : List ℕ) (old : Mesg) (ws : List WriteAnswer) (es : List ReadAnswer)
    → t < 18446744073709551616
    → 0 < length text
    → length text + 1 < mesg_max_data
    → Delivers ws (16 + length (text ++ c ∷ []))
    → let payload = text ++ c ∷ [] in
      let n = length text + 1 in
      let tail = 0 ∷ drop (n + 1) (0 ∷ drop 1 old.mesg_data) in
      (w : Written) × (Mesg_send
          (record { mesg_type = t; mesg_len = pos n; mesg_data = payload ++ unused })
          ws
        ≡ returned w)
      × (w.value ≡ pos (16 + n))
      × (Mesg_recv old (got (take 16 w.sent) ∷ got (drop 16 w.sent) ∷ es)
          ≡ returned (record {
            value = pos (16 + n);
            mesg =
                if c == newline
                then record {
                  mesg_type = t;
                  mesg_len = pos (length text);
                  mesg_data = text ++ 0 ∷ tail;
                }
                else record { mesg_type = t; mesg_len = pos n; mesg_data = text ++ c ∷ tail };
            rest = es;
          }))
Mesg_recv-Mesg_send t c text unused old ws es ht hx fits d =
    let n : length (text ++ c ∷ []) ≡ length text + 1 = length-append text (c ∷ []) in
    let sent = header t (pos (length text + 1)) ++ (text ++ c ∷ []) in
    let whole : take 16 sent ≡ header t (pos (length text + 1)) =
      rw (← length-header t (length text + 1))
        (take-front (header t (pos (length text + 1))) (text ++ c ∷ [])) in
    (
      record { value = pos (16 + (length text + 1)); sent = sent },
      rw (← n) (Mesg_send_lem t (text ++ c ∷ []) unused ws (omega (arith, n)) d),
      refl,
      rw (whole, header_rest t (length text + 1) (text ++ c ∷ []))
          (Mesg_recv_lem t c text old es ht hx (omega (arith, fits))),
    )
