-- ===== src/Terminal/Tests.antt =====
-- Names at the terminal.
use unix_ipc_note.Base.{◌≡◌, refl, true, false, List, [], ◌∷◌}
use unix_ipc_note.System.{eintr, returned}
use unix_ipc_note.Words.{list_eq}
use unix_ipc_note.Terminal.{Extraction, name_host_serv}

abbrev answers : List Extraction
answers =
    (record { text = []; good = false; errno = eintr })
    ∷ (record { text = b'h' ∷ b'o' ∷ []; good = true; errno = eintr })
    ∷ []

name_taken : name_host_serv answers ≡ returned (b'h' ∷ b'o' ∷ [])
unfolding name_host_serv list_eq
name_taken = refl
