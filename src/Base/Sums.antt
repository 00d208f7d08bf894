-- ===== src/Base/Sums.antt =====
-- What the threads below a bound have, added up.
use Prim.Native.Nat.{ℕ, zero, suc, ◌+◌, ◌*◌, ◌<◌, ◌≤◌}
use mathlib.Core.Path.{◌≡◌, refl}
use mathlib.Core.Logic.{◌≢◌}
use native.Mathlib.Decide.{ℕ_discrete}
use native.Mathlib.Omega.{arith}
use unix_ipc_note.Base.Family.{update}

pub sum_below : (ℕ → ℕ) → ℕ → ℕ
sum_below f zero = 0
sum_below f (suc n) = f n + sum_below f n

-- A value behind the bound does not count.
sum_below-behind : (f : ℕ → ℕ) (v i n : ℕ) → n ≤ i → sum_below (update f i v) n ≡ sum_below f n
unfolding sum_below
sum_below-behind f v i zero far = refl
sum_below-behind f v i (suc n) far =
    let apart : i ≢ n = omega arith in ground (arith, sum_below-behind f v i n, apart)

-- A value below the bound counts in place of the old one.
pub sum_below-update :
    (f : ℕ → ℕ) (v i n : ℕ) → i < n → f i + sum_below (update f i v) n ≡ v + sum_below f n
unfolding sum_below
sum_below-update f v i zero near = absurd (omega arith)
sum_below-update f v i (suc n) near = elim (ℕ_discrete n i) [
  | yes last ↦ ground (arith, last, sum_below-behind f v i n)
  | no other ↦ ground (arith, other, sum_below-update f v i n)
]

pub sum_below-const : (f : ℕ → ℕ) (k n : ℕ) → ((i : ℕ) → i < n → f i ≡ k) → sum_below f n ≡ n * k
unfolding sum_below
sum_below-const f k zero all = omega arith
sum_below-const f k (suc n) all =
    let below = sum_below-const f k n (λ i near. all i (omega arith)) in
    let last : f n ≡ k = all n (omega arith) in grind (arith, below, last)
