-- ===== src/Clock/Tests.antt =====
-- A time of day.
use unix_ipc_note.Base.{ℕ, ◌≡◌, refl, List, [], ◌∷◌}
use unix_ipc_note.Clock.{digits}

-- "Thu Jan  1 "
abbrev date : List ℕ
date = b'T' ∷ b'h' ∷ b'u' ∷ b' ' ∷ b'J' ∷ b'a' ∷ b'n' ∷ b' ' ∷ b' ' ∷ b'1' ∷ b' ' ∷ []

-- "09:08:07"
abbrev hms : List ℕ
hms = b'0' ∷ b'9' ∷ b':' ∷ b'0' ∷ b'8' ∷ b':' ∷ b'0' ∷ b'7' ∷ []

-- " 1970" and a newline
abbrev year : List ℕ
year = b' ' ∷ b'1' ∷ b'9' ∷ b'7' ∷ b'0' ∷ 10 ∷ []

digits-six : digits 6 42 ≡ b'0' ∷ b'0' ∷ b'0' ∷ b'0' ∷ b'4' ∷ b'2' ∷ []
unfolding digits
digits-six = refl
