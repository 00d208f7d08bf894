-- ===== src/Files/Tests.antt =====
-- A small file, and the theorems there.
use unix_ipc_note.Base.{ℕ, ◌≡◌, refl, none, some, List, [], ◌∷◌, length, arith}
use unix_ipc_note.System.{returned, got, done}
use unix_ipc_note.Files.{Numbers, file_open_read, file_map, starts}
use unix_ipc_note.Files.Replace.{substitute}
use unix_ipc_note.Files.Mapped.{file_map-substitute}
use unix_ipc_note.Files.Reading.{at_end, piece, file_open_read-Gives}

-- "1123123a" becomes "1zcqzcqa".
abbrev digits : List ℕ
digits = b'1' ∷ b'1' ∷ b'2' ∷ b'3' ∷ b'1' ∷ b'2' ∷ b'3' ∷ b'a' ∷ []

substitute-digits : substitute digits ≡ b'1' ∷ b'z' ∷ b'c' ∷ b'q' ∷ b'z' ∷ b'c' ∷ b'q' ∷ b'a' ∷ []
unfolding substitute starts
substitute-digits = refl

file_map-substitute_example :
    (file_map (λ f. none) digits ≡ some (substitute digits))
    × (length (substitute digits) ≡ length digits)
file_map-substitute_example = file_map-substitute (λ f. none) digits (omega arith) (omega arith)

abbrev numbers : Numbers
numbers = record { number = λ e. 5 }

file_open_read-Gives_example :
    file_open_read numbers (done 3) (got (b'a' ∷ b'b' ∷ []) ∷ got (b'c' ∷ []) ∷ got [] ∷ [])
    ≡ returned (b'a' ∷ b'b' ∷ b'c' ∷ [])
file_open_read-Gives_example = file_open_read-Gives numbers 3 (piece (piece at_end))
