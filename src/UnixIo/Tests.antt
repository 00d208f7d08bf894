-- ===== src/UnixIo/Tests.antt =====
-- `Read`, `Write` and `readline_slow` on concrete answers of the kernel, and the theorems there.
use unix_ipc_note.Base.{ℕ, List, [], ◌∷◌}
use unix_ipc_note.System.{eintr, WriteAnswer, wrote, write_failed}

abbrev word : List ℕ
word = b'h' ∷ b'i' ∷ []

abbrev bumpy : List WriteAnswer
bumpy = wrote 1 ∷ write_failed eintr ∷ wrote 0 ∷ wrote 1 ∷ []
