-- ===== src/Wrappers/Tests.antt =====
-- The wrappers on concrete answers, and the theorems there.
use unix_ipc_note.Base.{◌≡◌, refl, [], ◌∷◌, ◌++◌, drop, replicate, pos}
use unix_ipc_note.System.{returned, done}
use unix_ipc_note.UnixIo.{newline}
use unix_ipc_note.Mesg.{to_bytes}
use unix_ipc_note.Wrappers.{Msgrcv, cleared}
use unix_ipc_note.Wrappers.Receive.{Msgrcv_ninth}

-- The text "a\n", then seven bytes and a newline.
Msgrcv_ninth_example :
    Msgrcv 40 1 (replicate 40 9) (
      done
        (record { mtype = 1; mtext = (b'a' ∷ []) ++ newline ∷ (replicate 7 b'z' ++ newline ∷ []) }))
    ≡ returned (record {
      value = pos 9;
      buffer =
          to_bytes 8 1
          ++ (b'a'
              ∷ 0
              ∷ ((replicate 7 b'z' ++ newline ∷ []) ++ drop 18 (cleared 40 (replicate 40 9))));
    })
Msgrcv_ninth_example =
    Msgrcv_ninth 40 1 newline (b'a' ∷ []) (replicate 7 b'z' ++ newline ∷ []) (replicate 40 9) refl
