-- ===== src/Mesg.antt =====
-- pipe_FIFO/my_mesg.h and my_mesg.cpp: messages of variable length over a pipe, `Mesg_send` and
-- `Mesg_recv`. A `long` has eight bytes, the low one first; PIPE_BUF is 4096.
pub mod Longs
pub mod Transfer
pub mod Empty
mod Tests
use unix_ipc_note.Base.{
  ℕ, zero, suc, ◌+◌, ◌-◌, ◌*◌, ◌/◌, ◌%◌, ◌<◌, Bool, true, false, ◌&&◌, List, [], ◌∷◌, ◌++◌, length,
  take, drop, get_or, set, ℤ, pos, negsuc, minus_one, is_pos, int_eq, ltb, ◌==◌, if◌then◌else◌, not,
}
use unix_ipc_note.System.{Outcome, returned, exited, blocked, ReadAnswer, WriteAnswer}
use unix_ipc_note.UnixIo.{Reading, Read, Written, Write, newline, overlay}

-- struct my_mesg. `mesg_type` is given by its 64 bits; `mesg_data` is the memory from the array on, what
-- lies behind its mesg_max_data bytes and so behind the struct included.
pub record Mesg : Type 0 where
  pub mesg_type : ℕ
  pub mesg_len : ℤ
  pub mesg_data : List ℕ

abbrev pub mesg_max_data : ℕ
mesg_max_data = 4096 - 8 * 2

-- sizeof(struct my_mesg) - mesg_max_data
abbrev pub mesg_header_size : ℕ
mesg_header_size = 16

-- The bytes of a number, the low one first.
unfoldable pub to_bytes : ℕ → ℕ → List ℕ
to_bytes zero v = []
to_bytes (suc k) v = (v % 256) ∷ to_bytes k (v / 256)

unfoldable pub from_bytes : List ℕ → ℕ
from_bytes [] = 0
from_bytes (b ∷ bs) = b + 256 * from_bytes bs

-- A long as its 64 bits, and back.
abbrev pub to_bits : ℤ → ℕ
to_bits (pos n) = n
to_bits (negsuc n) = 18446744073709551615 - n

abbrev pub from_bits : ℕ → ℤ
from_bits v = if ltb v 9223372036854775808 then pos v else negsuc (18446744073709551615 - v)

-- The two longs in front of the data.
pub header : ℕ → ℤ → List ℕ
header mesg_type mesg_len = to_bytes 8 mesg_type ++ to_bytes 8 (to_bits mesg_len)

-- Mesg_send: mesg_header_size + mesg_len bytes, computed as a size_t, from the start of the struct.
pub Mesg_send : Mesg → List WriteAnswer → Outcome Written
Mesg_send m es =
    let size = (mesg_header_size + to_bits m.mesg_len) % 18446744073709551616 in
    Write (take size (header m.mesg_type m.mesg_len ++ m.mesg_data)) es

-- What `Mesg_recv` leaves: its value and the message.
pub record Received : Type 0 where
  pub value : ℤ
  pub mesg : Mesg
  pub rest : List ReadAnswer

-- mesg_len--
abbrev pub decrement : ℤ → ℤ
decrement (pos zero) = minus_one
decrement (pos (suc n)) = pos n
decrement (negsuc n) = negsuc (suc n)

-- From `if (recvsize > 1 && ...)` on.
abbrev pub strip_newline : ℕ → Mesg → List ReadAnswer → Outcome Received
strip_newline recvsize m es =
    let stripped : Mesg = record {
      mesg_type = m.mesg_type;
      mesg_len = decrement m.mesg_len;
      mesg_data = set m.mesg_data (recvsize - 1) 0;
    } in
    returned (record {
      value = pos (mesg_header_size + recvsize);
      mesg =
          if ltb 1 recvsize && (get_or m.mesg_data (recvsize - 1) 0 == newline)
          then stripped
          else m;
      rest = es;
    })

-- The second `Read`, of mesg_len + 1 bytes at most, and its check. It clears and fills that many bytes of
-- memory, behind the struct too where mesg_len is mesg_max_data or more.
abbrev pub read_payload : ℕ → Mesg → Outcome Reading → Outcome Received
read_payload len m blocked = blocked
read_payload len m (exited status) = exited status
read_payload len m (returned r) =
    let whole : Mesg = record m { mesg_data = overlay r.buffer m.mesg_data } in
    if int_eq r.value (pos len) then strip_newline len whole r.rest else exited minus_one

-- Behind the first `Read`, of mesg_header_size + 1 bytes at most: they cover the first byte of the data.
abbrev pub with_header : Mesg → Outcome Reading → Outcome Received
with_header old blocked = blocked
with_header old (exited status) = exited status
with_header old (returned r) =
    let m : Mesg = record {
      mesg_type = from_bytes (take 8 r.buffer);
      mesg_len = from_bits (from_bytes (take 8 (drop 8 r.buffer)));
      mesg_data = overlay (drop mesg_header_size r.buffer) old.mesg_data;
    } in
    if int_eq r.value (pos 0)
    then returned (record { value = pos 0; mesg = m; rest = r.rest })
    else (if not (int_eq r.value (pos mesg_header_size))
        then exited minus_one
        else (if is_pos m.mesg_len
            then read_payload (to_bits m.mesg_len) m (Read (to_bits m.mesg_len + 1) 0 r.rest)
            else strip_newline mesg_header_size m r.rest))

-- Mesg_recv into a struct that holds `old`.
pub Mesg_recv : Mesg → List ReadAnswer → Outcome Received
Mesg_recv old es = with_header old (Read (mesg_header_size + 1) 0 es)
