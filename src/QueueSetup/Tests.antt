-- ===== src/QueueSetup/Tests.antt =====
-- Command lines and messages.
use unix_ipc_note.Base.{ℕ, ◌≡◌, refl, List, [], ◌∷◌}
use unix_ipc_note.UnixIo.{newline}
use unix_ipc_note.Words.Numbers.{skip_space}
use unix_ipc_note.QueueSetup.{cin_word, until_space}

-- "-e /q"
abbrev line : List ℕ
line = b'-' ∷ b'e' ∷ b' ' ∷ b'/' ∷ b'q' ∷ newline ∷ []

first_word : cin_word line ≡ b'-' ∷ b'e' ∷ []
unfolding until_space skip_space
first_word = refl
