-- ===== src/Words/Commands.antt =====
-- `if_run` and `if_quit_echo`: which texts count as a command.
use unix_ipc_note.Base.{
  ℕ, zero, suc, ◌≡◌, refl, ◌≢◌, ◌↔◌, sym, ap, ◌∙◌, true, List, [], ◌∷◌, ◌++◌, length, take, drop,
  take-append-drop, length-take, arith, ◌<◌, ◌⊎◌, Bool-cases, inl, inr,
}
use unix_ipc_note.Words.{list_eq, if_run, if_quit_echo}

pub list_eq_sound : (xs ys : List ℕ) → list_eq xs ys ≡ true → xs ≡ ys
unfolding list_eq
list_eq_sound [] [] e = refl
list_eq_sound [] (y ∷ ys) e = cc
list_eq_sound (x ∷ xs) [] e = cc
list_eq_sound (x ∷ xs) (y ∷ ys) e = ground (arith, list_eq_sound xs ys)

pub list_eq_refl : (xs : List ℕ) → list_eq xs xs ≡ true
unfolding list_eq
list_eq_refl [] = refl
list_eq_refl (x ∷ xs) = ground (arith, list_eq_refl xs)

take_all : (n : ℕ) (xs : List ℕ) → length xs < n → take n xs ≡ xs
take_all zero xs h = absurd (omega arith)
take_all (suc n) [] h = refl
take_all (suc n) (x ∷ xs) h = ap (◌∷◌ x) (take_all n xs (omega arith))

-- What `if_run` accepts: the command itself, or a text whose first four bytes are the command.
if_run_cases : (cmd buf : List ℕ) → if_run cmd buf ≡ true → (cmd ≡ buf) ⊎ (take 4 buf ≡ cmd)
unfolding if_run
if_run_cases cmd buf h = elim (Bool-cases (list_eq cmd buf)) [
  | inl e ↦ inl (list_eq_sound cmd buf e)
  | inr e ↦ inr (list_eq_sound (take 4 buf) cmd (ground arith))
]

if_run_self : (cmd : List ℕ) → if_run cmd cmd ≡ true
unfolding if_run
if_run_self cmd = rw (list_eq_refl cmd)

if_run_begins :
    (a b c d : ℕ) (rest : List ℕ) → if_run (a ∷ b ∷ c ∷ d ∷ []) (a ∷ b ∷ c ∷ d ∷ rest) ≡ true
unfolding if_run
if_run_begins a b c d rest = ground (arith, list_eq_refl (a ∷ b ∷ c ∷ d ∷ []))

-- A command of four bytes, such as "quit" and "time", is seen in exactly the texts that begin with
-- it.
pub if_run_prefix :
    (a b c d : ℕ) (buf : List ℕ)
    → let cmd = a ∷ b ∷ c ∷ d ∷ [] in
      (if_run cmd buf ≡ true) ↔ ((rest : List ℕ) × (buf ≡ cmd ++ rest))
if_run_prefix a b c d buf = (
  λ h. elim (if_run_cases (a ∷ b ∷ c ∷ d ∷ []) buf h) [
    | inl e ↦ ([], sym e)
    | inr e ↦ (drop 4 buf, sym (take-append-drop 4 buf) ∙ ap (λ w. w ++ drop 4 buf) e)
  ],
  λ h. rw h.1 (if_run_begins a b c d h.0),
)

-- A command of any other length is seen in the equal text alone: "time\n" does not run on
-- "time\r\n".
pub if_run_exact : (cmd buf : List ℕ) → length cmd ≢ 4 → (if_run cmd buf ≡ true) ↔ (cmd ≡ buf)
if_run_exact cmd buf other_length = (
  λ h. elim (if_run_cases cmd buf h) [
    | inl e ↦ e
    | inr e ↦
        let len : length (take 4 buf) ≡ length cmd = ap length e in
        sym e ∙ take_all 4 buf (omega (arith, length-take 4 buf))
  ],
  λ e. rw (← e) (if_run_self cmd),
)

-- `if_quit_echo` is `if_run` with the command "quit".
pub if_quit_echo-if_run :
    (buf : List ℕ) → if_quit_echo buf ≡ if_run (b'q' ∷ b'u' ∷ b'i' ∷ b't' ∷ []) buf
unfolding if_quit_echo if_run list_eq
if_quit_echo-if_run buf = elim (Bool-cases (list_eq (b'q' ∷ b'u' ∷ b'i' ∷ b't' ∷ []) buf)) [
  | inl e ↦ rw (← list_eq_sound (b'q' ∷ b'u' ∷ b'i' ∷ b't' ∷ []) buf e) refl
  | inr e ↦ rw e refl
]
