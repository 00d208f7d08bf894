-- ===== src/Descriptors/Tests.antt =====
-- A descriptor on its way, and the theorems there.
use unix_ipc_note.Base.{◌≡◌, refl, [], ◌∷◌, minus_one}
use unix_ipc_note.System.{exited, done}
use unix_ipc_note.Descriptors.{Arrival, read_fd, Read_fd}

abbrev members : Arrival
members = record { bytes = []; msg_namelen = 0; msg_controllen = 24; msg_flags = 0; control = [] }

abbrev with_rights : Arrival
with_rights = record members {
  bytes = b'x' ∷ [];
  control =
      (record { cmsg_len = 20; cmsg_level = 1; cmsg_type = 1; cmsg_data = 9 ∷ 0 ∷ 0 ∷ 0 ∷ [] })
      ∷ [];
}

-- A control message of the right length at another level ends the process.
Read_fd_foreign :
    Read_fd (0 ∷ []) minus_one (
      done (record members {
        bytes = b'x' ∷ [];
        control =
            (record {
              cmsg_len = 20;
              cmsg_level = 41;
              cmsg_type = 1;
              cmsg_data = 9 ∷ 0 ∷ 0 ∷ 0 ∷ [];
            })
            ∷ [];
      }))
    ≡ exited minus_one
unfolding Read_fd read_fd
Read_fd_foreign = refl
