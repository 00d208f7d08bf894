-- ===== src/UnixIo/LineLaws.antt =====
-- `readline_slow`: which bytes it stores, and what it returns for them.
use Prim.Native.Nat.add
use native.Mathlib.Nat.{add-zero}
use unix_ipc_note.Base.{
  ℕ, zero, suc, ◌+◌, ◌-◌, ◌≤◌, ◌<◌, ◌≡◌, refl, ◌∙◌, List, [], ◌∷◌, ◌++◌, length, length-append,
  append-nil, append_assoc, pos, arith, map, ◌==◌, false,
}
use unix_ipc_note.System.{eintr, returned, ReadAnswer, got, read_failed}
use unix_ipc_note.UnixIo.{Line, newline, readline_loop, readline_slow}

-- The bytes arrive one by one.
abbrev pub bytewise : List ℕ → List ReadAnswer
bytewise = map (λ c. got (c ∷ []))

abbrev pub NoNewline : List ℕ → Type 0
NoNewline [] = Unit
NoNewline (c ∷ cs) = ((c == newline) ≡ false) × NoNewline cs

-- Bytes that are no newline are stored, a round for each.
readline_loop-bytewise :
    (budget numval : ℕ) (line cs : List ℕ) (es : List ReadAnswer)
    → NoNewline cs
    → readline_loop (length cs + budget) numval line (bytewise cs ++ es)
      ≡ readline_loop budget (numval + length cs) (line ++ cs) es
unfolding readline_loop
readline_loop-bytewise budget numval line [] es p =
    rw (append-nil line, add-zero numval, add.zero budget) refl
readline_loop-bytewise budget numval line (c ∷ cs) es p =
    let e : numval + 1 + length cs ≡ numval + suc (length cs) = omega arith in
    rw (add.suc (length cs) budget, p.0, readline_loop)
      (readline_loop-bytewise budget (numval + 1) (line ++ c ∷ []) cs es p.1
        ∙ rw (e, append_assoc line (c ∷ []) cs) refl)

-- A line that fits with its newline is stored whole, and the value is its length, newline included.
-- At the end of the file before any newline the value is the number of bytes stored.
pub readline_line :
    (size : ℕ) (line : List ℕ) (es : List ReadAnswer)
    → NoNewline line
    → length line + 1 < size
    → (readline_slow size (bytewise line ++ (got (newline ∷ []) ∷ es))
        ≡ returned (record {
          value = pos (length line + 1);
          stored = (line ++ newline ∷ []) ++ 0 ∷ [];
          rest = es;
        }))
      × (readline_slow size (bytewise line ++ (got [] ∷ es))
          ≡ returned (record { value = pos (length line); stored = line ++ 0 ∷ []; rest = es }))
unfolding readline_slow
readline_line size line es p fits =
    let budget : size - 1 ≡ length line + suc (size - 2 - length line) = omega arith in
    let one : 1 + length line ≡ length line + 1 = omega arith in
    let drop_one : length line + 1 - 1 ≡ length line = omega arith in
    (
      rw budget (
          readline_loop-bytewise (suc (size - 2 - length line)) 1 [] line (got (newline ∷ []) ∷ es)
            p
          ∙ rw one refl),
      rw budget (
          readline_loop-bytewise (suc (size - 2 - length line)) 1 [] line (got [] ∷ es) p
          ∙ rw (one, drop_one) refl),
    )

-- A line that fills the buffer before its newline is cut after size - 1 bytes, and the value is then
-- one more than the number of bytes stored before the final 0.
pub readline_cut :
    (size : ℕ) (line : List ℕ) (es : List ReadAnswer)
    → NoNewline line
    → size ≡ suc (length line)
    → readline_slow size (bytewise line ++ es)
      ≡ returned (record { value = pos (suc (length line)); stored = line ++ 0 ∷ []; rest = es })
unfolding readline_slow
readline_cut size line es p e =
    let budget : size - 1 ≡ length line + 0 = omega arith in
    let one : 1 + length line ≡ suc (length line) = omega arith in
    rw budget (readline_loop-bytewise 0 1 [] line es p ∙ rw one refl)

readline_loop-fits :
    (budget numval : ℕ) (line : List ℕ) (es : List ReadAnswer) {l : Line}
    → readline_loop budget numval line es ≡ returned l
    → length l.stored ≤ length line + budget + 1
unfolding readline_loop
readline_loop-fits zero numval line es e = ground (arith, length-append line (0 ∷ []))
readline_loop-fits (suc budget) numval line [] e = cc
readline_loop-fits (suc budget) numval line (got [] ∷ es) e =
    ground (arith, length-append line (0 ∷ []))
readline_loop-fits (suc budget) numval line (got (c ∷ cs) ∷ es) {l} e = ground (
  arith,
  length-append line (c ∷ []),
  length-append (line ++ c ∷ []) (0 ∷ []),
  readline_loop-fits budget (numval + 1) (line ++ c ∷ []) es {l = l},
)
readline_loop-fits (suc budget) numval line (read_failed eintr ∷ es) e =
    readline_loop-fits (suc budget) numval line es e
readline_loop-fits (suc budget) numval line (read_failed _ ∷ es) e = ground arith

-- Whatever arrives, `readline_slow` writes no more than size_val bytes, the final 0 included.
pub readline_fits :
    (size : ℕ) (es : List ReadAnswer) (l : Line)
    → 0 < size
    → readline_slow size es ≡ returned l
    → length l.stored ≤ size
unfolding readline_slow
readline_fits size es l h e = omega (arith, readline_loop-fits (size - 1) 1 [] es e)
