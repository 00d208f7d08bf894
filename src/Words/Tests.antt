-- ===== src/Words/Tests.antt =====
-- Command lines and commands, and the theorems there.
use unix_ipc_note.Base.{ℕ, ◌≡◌, refl, List, [], ◌∷◌}
use unix_ipc_note.System.{returned, got}
use unix_ipc_note.Words.{newline, space, strtovec, hints_strtovec}
use unix_ipc_note.Words.Split.{IsWord, All, strtovec-IsWord}

abbrev ab : List ℕ
ab = b'a' ∷ b'b' ∷ []

-- "ab  c \n": two words; the newline behind the last space is dropped.
abbrev line : List ℕ
line = b'a' ∷ b'b' ∷ space ∷ space ∷ b'c' ∷ space ∷ newline ∷ []

line_words : strtovec line ≡ returned (ab ∷ (b'c' ∷ []) ∷ [])
unfolding strtovec
line_words = refl

-- A lone newline read from the terminal gives no words.
hints_newline : hints_strtovec (got (newline ∷ [])) ≡ returned []
unfolding hints_strtovec
hints_newline = refl

two_words-IsWord : All IsWord (ab ∷ (b'c' ∷ []) ∷ [])
two_words-IsWord = strtovec-IsWord line (ab ∷ (b'c' ∷ []) ∷ []) line_words

abbrev quit_line : List ℕ
quit_line = b'q' ∷ b'u' ∷ b'i' ∷ b't' ∷ newline ∷ []
