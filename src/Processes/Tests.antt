-- ===== src/Processes/Tests.antt =====
-- A shell that cannot find the command, and a killed command.
use unix_ipc_note.Base.{◌≡◌, refl, some, [], ◌∷◌, pos}
use unix_ipc_note.System.{done}
use unix_ipc_note.Processes.{process_popen_pclose_debug}

-- The output comes through byte by byte, without its zeros.
popen_text :
    (process_popen_pclose_debug
      (some (done (record { output = b'o' ∷ 0 ∷ b'k' ∷ []; closing = pos 0 })))
      0).text
    ≡ b'o' ∷ b'k' ∷ []
unfolding process_popen_pclose_debug
popen_text = refl
