-- ===== src/Base/Int.antt =====
-- Signed return values over the native numbers: what the system calls give back and what the
-- wrappers compare with zero.
use Prim.Native.Nat.{ℕ, suc}
use mathlib.Core.Bool.{Bool, true, false}
use unix_ipc_note.Base.Tests.{◌==◌}

-- `negsuc n` is -(n + 1).
pub data ℤ : Type 0 where
  pos : ℕ → ℤ
  negsuc : ℕ → ℤ

abbrev pub minus_one : ℤ
minus_one = negsuc 0

-- a < 0
abbrev pub is_neg : ℤ → Bool
is_neg (pos n) = false
is_neg (negsuc n) = true

-- a > 0
abbrev pub is_pos : ℤ → Bool
is_pos (pos n) = elim n [ ℕ.zero ↦ false | suc k ↦ true ]
is_pos (negsuc n) = false

-- a == b
abbrev pub int_eq : ℤ → ℤ → Bool
int_eq (pos m) (pos n) = m == n
int_eq (negsuc m) (negsuc n) = m == n
int_eq _ _ = false
