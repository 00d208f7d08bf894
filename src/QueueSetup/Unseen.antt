-- ===== src/QueueSetup/Unseen.antt =====
-- `mq_create` reads one word.
use unix_ipc_note.Base.{
  ℕ, ◌<◌, ◌≡◌, refl, false, none, List, [], ◌∷◌, length, minus_one, arith, Bool-cases, inl, inr,
}
use unix_ipc_note.System.{returned, exited}
use unix_ipc_note.Words.{newline, list_eq}
use unix_ipc_note.Words.Split.{NoSpace, strtovec-scan}
use unix_ipc_note.Words.Join.{strtovec_word}
use unix_ipc_note.Words.Numbers.{is_space, skip_space}
use unix_ipc_note.QueueSetup.{until_space, cin_word, open_words, mq_create}

until_space-NoSpace : (text : List ℕ) → NoSpace (until_space text)
unfolding until_space
until_space-NoSpace [] = tt
until_space-NoSpace (c ∷ cs) = elim (Bool-cases (is_space c)) [
  | inl e ↦ rw (e, until_space) tt
  | inr e ↦ rw (e, until_space) (ground arith, until_space-NoSpace cs)
]

until_space_line : (text : List ℕ) → list_eq (until_space text) (newline ∷ []) ≡ false
unfolding until_space list_eq
until_space_line [] = refl
until_space_line (c ∷ cs) = elim (Bool-cases (is_space c)) [
  | inl e ↦ rw (e, until_space) refl
  | inr e ↦ rw (e, until_space) (ground arith)
]

open_one :
    (w : List ℕ) → open_words (w ∷ []) ≡ returned (record { name = w; excl = false; attr = none })
unfolding open_words
open_one w = refl

word_opened :
    (w : List ℕ)
    → NoSpace w
    → list_eq w (newline ∷ []) ≡ false
    → (input : List ℕ) → cin_word input ≡ w
    → (w ≡ [] → mq_create input ≡ exited minus_one)
      × (0 < length w → mq_create input ≡ returned (record { name = w; excl = false; attr = none }))
unfolding mq_create
word_opened [] plain line input e =
    (λ none. rw (e, (strtovec-scan 0 []).1, mq_create) refl, λ some. absurd (omega arith))
word_opened (c ∷ cs) plain line input e = (
  λ none. absurd (cc none),
  λ some.
      let word =
        strtovec_word c cs
          (record { some_bytes = omega arith; no_space = plain; no_newline = line }) in
      rw (e, word, mq_create) (open_one (c ∷ cs)),
)

-- Where there is no word, it exits with -1.
pub no_word_exits : (input : List ℕ) → cin_word input ≡ [] → mq_create input ≡ exited minus_one
unfolding until_space
no_word_exits input none_there =
    (word_opened (cin_word input) (until_space-NoSpace (skip_space input))
        (until_space_line (skip_space input)) input refl).0
      none_there
