-- ===== src/MessageHeader/Tests.antt =====
-- A header filled by a caller with two frames of its own.
use unix_ipc_note.Base.{◌≡◌, none, some, List, [], ◌∷◌, replicate}
use unix_ipc_note.MessageHeader.{
  Place, Locals, IoVec, empty, vectors, control_room, fill, fill_01, struct_msghdr_cmsghdr,
  struct_msghdr_cmsghdr_01,
}
use unix_ipc_note.MessageHeader.Dangling.{header_dangles}

abbrev callers : List Locals
callers =
    (record { iovec_s = []; cmsg_control = [] }) ∷ (record { iovec_s = []; cmsg_control = [] }) ∷ []

header_dangles_example :
    let vector : List IoVec = (record { iov_base = Place.caller 9; iov_len = 100 }) ∷ [] in
    let inside = fill empty Place.null 0 (Place.caller 9) 100 callers in
    let after = struct_msghdr_cmsghdr empty Place.null 0 (Place.caller 9) 100 callers in
    let inside_01 = fill_01 empty Place.null 0 (Place.caller 9) 100 callers in
    let after_01 = struct_msghdr_cmsghdr_01 empty Place.null 0 (Place.caller 9) 100 callers in
    (vectors inside ≡ some vector)
    × (control_room inside ≡ some (replicate 24 0))
    × (vectors after ≡ none)
    × (control_room after ≡ none)
    × (vectors inside_01 ≡ some vector)
    × (control_room inside_01 ≡ some (replicate 32 0))
    × (vectors after_01 ≡ none)
    × (control_room after_01 ≡ none)
header_dangles_example = header_dangles empty Place.null (Place.caller 9) 0 100 callers
