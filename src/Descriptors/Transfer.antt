-- ===== src/Descriptors/Transfer.antt =====
-- Where the descriptor comes from that a process receives.
use unix_ipc_note.Base.{◌≡◌, List, ◌∷◌, take, ℤ, pos}
use unix_ipc_note.Mesg.{from_bytes}
use unix_ipc_note.Descriptors.{Cmsg, Arrival, sol_socket, scm_rights, len_int}

-- The descriptor that a first control message of the right length, level and type carries.
abbrev pub FirstRights : Arrival → ℤ → Type 0
FirstRights a v =
    (c : Cmsg) × (cs : List Cmsg) × (a.control ≡ c ∷ cs)
    × (c.cmsg_len ≡ len_int)
    × (c.cmsg_level ≡ sol_socket)
    × (c.cmsg_type ≡ scm_rights)
    × (v ≡ pos (from_bytes (take 4 c.cmsg_data)))
