-- ===== src/Mesg/Longs.antt =====
-- The header of a message holds its two longs.
use unix_ipc_note.Base.{
  ℕ, zero, suc, ◌/◌, ◌<◌, ◌≡◌, refl, List, [], ◌∷◌, ◌++◌, length, take, drop, pos, arith, is_pos,
  true,
}
use unix_ipc_note.System.{ReadAnswer, got, returned}
use unix_ipc_note.UnixIo.{Read}
use unix_ipc_note.UnixIo.ReadLaws.{Read_bytes}
use unix_ipc_note.Mesg.{to_bytes, from_bytes, from_bits, header}

-- A number of at most `k` bytes.
abbrev pub Fits : ℕ → ℕ → Type 0
Fits zero v = v ≡ 0
Fits (suc k) v = Fits k (v / 256)

from_bytes-to_bytes : (k v : ℕ) → Fits k v → from_bytes (to_bytes k v) ≡ v
unfolding from_bytes to_bytes
from_bytes-to_bytes zero v h = omega arith
from_bytes-to_bytes (suc k) v h = omega (arith, from_bytes-to_bytes k (v / 256) h)

pub long_back : (v : ℕ) → v < 18446744073709551616 → from_bytes (to_bytes 8 v) ≡ v
long_back v h = from_bytes-to_bytes 8 v (omega arith)

pub int_back : (v : ℕ) → v < 4294967296 → from_bytes (take 4 (to_bytes 4 v)) ≡ v
unfolding to_bytes
int_back v h = from_bytes-to_bytes 4 v (omega arith)

pub length-header : (t : ℕ) (n : ℕ) → length (header t (pos n)) ≡ 16
unfolding header to_bytes
length-header t n = refl

pub header_type : (t n : ℕ) (rest : List ℕ) → take 8 (header t (pos n) ++ rest) ≡ to_bytes 8 t
unfolding header to_bytes
header_type t n rest = refl

pub header_len :
    (t n : ℕ) (rest : List ℕ) → take 8 (drop 8 (header t (pos n) ++ rest)) ≡ to_bytes 8 n
unfolding header to_bytes
header_len t n rest = refl

pub header_rest : (t n : ℕ) (rest : List ℕ) → drop 16 (header t (pos n) ++ rest) ≡ rest
unfolding header to_bytes
header_rest t n rest = refl

pub Read-header :
    (t n : ℕ) (es : List ReadAnswer)
    → Read 17 0 (got (header t (pos n)) ∷ es)
      ≡ returned (record { value = pos 16; buffer = header t (pos n) ++ 0 ∷ []; rest = es })
unfolding header to_bytes
Read-header t n es = Read_bytes 17 _ _ es

pub from_bits_pos : (n : ℕ) → n < 9223372036854775808 → from_bits n ≡ pos n
from_bits_pos n h = ground arith

pub is_pos_suc : (n : ℕ) → 0 < n → is_pos (pos n) ≡ true
is_pos_suc zero h = absurd (omega arith)
is_pos_suc (suc n) h = refl

pub length-to_bytes_eight : (t : ℕ) → length (to_bytes 8 t) ≡ 8
unfolding to_bytes
length-to_bytes_eight t = refl
