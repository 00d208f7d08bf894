-- ===== src/MessageHeader/Dangling.antt =====
-- Where the pointers of a filled header lead, before the return and after it.
use unix_ipc_note.Base.{
  ℕ, ◌≡◌, refl, ◌≢◌, none, some, List, [], ◌∷◌, ◌++◌, length, replicate, get_elem?, arith,
}
use unix_ipc_note.MessageHeader.{
  Place, IoVec, Locals, MsgHdr, vectors, control_room, leave, fill, fill_01, fill_02,
  struct_msghdr_cmsghdr, struct_msghdr_cmsghdr_01, struct_msghdr_cmsghdr_02,
}

get_elem?-length : (ls : List Locals) (l : Locals) → get_elem? (ls ++ l ∷ []) (length ls) ≡ some l
get_elem?-length [] l = refl
get_elem?-length (x ∷ ls) l = get_elem?-length ls l

get_elem?-beyond : (ls : List Locals) → get_elem? ls (length ls) ≡ none
get_elem?-beyond [] = refl
get_elem?-beyond (x ∷ ls) = get_elem?-beyond ls

leave-push : (ls : List Locals) (l : Locals) → leave (ls ++ l ∷ []) ≡ ls
unfolding leave
leave-push [] l = refl
leave-push (x ∷ []) l = refl
leave-push (x ∷ y ∷ ls) l = rw (leave-push (y ∷ ls) l) refl

-- A header that points into the frame behind `frames`: with that frame pushed its pointers lead to
-- the frame's locals, and with it gone nowhere.
module _ (h : MsgHdr) (frames : List Locals) (l : Locals) where
  vectors_inside :
      h.msg_iov ≡ Place.frame (length frames)
      → vectors (record { hdr = h; frames = frames ++ l ∷ [] }) ≡ some l.iovec_s
  unfolding vectors
  vectors_inside e = ground (arith, get_elem?-length frames l)

  control_inside :
      h.msg_control ≡ Place.frame (length frames)
      → control_room (record { hdr = h; frames = frames ++ l ∷ [] }) ≡ some l.cmsg_control
  unfolding control_room
  control_inside e = ground (arith, get_elem?-length frames l)

  vectors_after :
      h.msg_iov ≡ Place.frame (length frames)
      → vectors (record { hdr = h; frames = leave (frames ++ l ∷ []) }) ≡ none
  unfolding vectors
  vectors_after e = rw (leave-push frames l) (ground (arith, get_elem?-beyond frames))

  control_after :
      h.msg_control ≡ Place.frame (length frames)
      → control_room (record { hdr = h; frames = leave (frames ++ l ∷ []) }) ≡ none
  unfolding control_room
  control_after e = rw (leave-push frames l) (ground (arith, get_elem?-beyond frames))

-- Until it returns, `struct_msghdr_cmsghdr` has a header whose pointers lead to one vector, the
-- caller's data, and to 24 zero bytes of control data; the header that it returns has pointers that
-- lead nowhere, since the frame of both locals is gone. So it is for `struct_msghdr_cmsghdr_01`, with
-- 32 bytes.
pub header_dangles :
    (hdr : MsgHdr) (address base : Place) (addr_len len : ℕ) (frames : List Locals)
    → let vector : List IoVec = (record { iov_base = base; iov_len = len }) ∷ [] in
      let inside = fill hdr address addr_len base len frames in
      let after = struct_msghdr_cmsghdr hdr address addr_len base len frames in
      let inside_01 = fill_01 hdr address addr_len base len frames in
      let after_01 = struct_msghdr_cmsghdr_01 hdr address addr_len base len frames in
      (vectors inside ≡ some vector)
      × (control_room inside ≡ some (replicate 24 0))
      × (vectors after ≡ none)
      × (control_room after ≡ none)
      × (vectors inside_01 ≡ some vector)
      × (control_room inside_01 ≡ some (replicate 32 0))
      × (vectors after_01 ≡ none)
      × (control_room after_01 ≡ none)
unfolding fill fill_01 struct_msghdr_cmsghdr struct_msghdr_cmsghdr_01
header_dangles hdr address base addr_len len frames = (
  vectors_inside _ frames _ refl,
  control_inside _ frames _ refl,
  vectors_after _ frames _ refl,
  control_after _ frames _ refl,
  vectors_inside _ frames _ refl,
  control_inside _ frames _ refl,
  vectors_after _ frames _ refl,
  control_after _ frames _ refl,
)

-- `struct_msghdr_cmsghdr_02` leaves the two vectors in the frame that is gone, in either mode; in mode
-- 0 it leaves the control pointer of the header alone.
pub header_02_dangles :
    (hdr : MsgHdr) (address base1 base2 : Place) (addr_len len1 len2 mode : ℕ)
    (frames : List Locals)
    → let inside = fill_02 hdr address addr_len base1 len1 base2 len2 mode frames in
      let after = struct_msghdr_cmsghdr_02 hdr address addr_len base1 len1 base2 len2 mode frames in
      (vectors inside
        ≡ some (
            (record { iov_base = base1; iov_len = len1 })
            ∷ (record { iov_base = base2; iov_len = len2 })
            ∷ []))
      × (vectors after ≡ none)
      × (mode ≢ 0 → control_room after ≡ none)
      × (mode ≡ 0 → after.hdr.msg_control ≡ hdr.msg_control)
unfolding fill_02 struct_msghdr_cmsghdr_02
header_02_dangles hdr address base1 base2 addr_len len1 len2 mode frames = (
  vectors_inside _ frames _ refl,
  vectors_after _ frames _ refl,
  λ ne. control_after _ frames _ (ground arith),
  λ e. ground arith,
)
