-- ===== src/Base/Places.antt =====
-- A byte in the middle of a list, read and overwritten where it lies.
use Prim.Native.Nat.{ℕ, zero, suc, ◌+◌, ◌≤◌}
use mathlib.Core.Path.{◌≡◌, refl, ap, ◌∙◌}
use mathlib.Core.List.{List, [], ◌∷◌, ◌++◌}
use native.Mathlib.Omega.{arith}
use unix_ipc_note.Base.Lists.{length, get_or, set, take, drop}

pub get_or-last : (text tail : List ℕ) (c : ℕ) → get_or (text ++ c ∷ tail) (length text) 0 ≡ c
get_or-last [] tail c = refl
get_or-last (x ∷ text) tail c = get_or-last text tail c

pub set-last :
    (text tail : List ℕ) (c v : ℕ) → set (text ++ c ∷ tail) (length text) v ≡ text ++ v ∷ tail
set-last [] tail c v = refl
set-last (x ∷ text) tail c v = ap (λ l. x ∷ l) (set-last text tail c v)

-- A write at or behind a place leaves what is before it.
pub take-set : (xs : List ℕ) (n i v : ℕ) → n ≤ i → take n (set xs i v) ≡ take n xs
take-set xs zero i v h = refl
take-set [] (suc n) i v h = refl
take-set (x ∷ xs) (suc n) zero v h = absurd (omega arith)
take-set (x ∷ xs) (suc n) (suc i) v h = ap (λ l. x ∷ l) (take-set xs n i v (omega arith))

pub take-front : (xs ys : List ℕ) → take (length xs) (xs ++ ys) ≡ xs
take-front [] ys = refl
take-front (x ∷ xs) ys = ap (λ l. x ∷ l) (take-front xs ys)

pub take-all : (xs : List ℕ) → take (length xs) xs ≡ xs
take-all [] = refl
take-all (x ∷ xs) = ap (λ l. x ∷ l) (take-all xs)

pub drop-front : (xs ys : List ℕ) → drop (length xs) (xs ++ ys) ≡ ys
drop-front [] ys = refl
drop-front (x ∷ xs) ys = drop-front xs ys

pub drop-beyond : (n : ℕ) (xs : List ℕ) → length xs ≤ n → drop n xs ≡ []
drop-beyond zero [] h = refl
drop-beyond zero (x ∷ xs) h = absurd (omega arith)
drop-beyond (suc n) [] h = refl
drop-beyond (suc n) (x ∷ xs) h = drop-beyond n xs (omega arith)

pub take-length_add : (xs ys : List ℕ) (k : ℕ) → take (length xs + k) (xs ++ ys) ≡ xs ++ take k ys
take-length_add [] ys k = let e : 0 + k ≡ k = omega arith in ap (λ n. take n ys) e
take-length_add (x ∷ xs) ys k =
    let e : suc (length xs) + k ≡ suc (length xs + k) = omega arith in
    ap (λ n. take n (x ∷ (xs ++ ys))) e ∙ ap (◌∷◌ x) (take-length_add xs ys k)
