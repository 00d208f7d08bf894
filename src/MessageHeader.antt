-- ===== src/MessageHeader.antt =====
-- unix_I_O_FILE/IO_recvmsg_sendmsg.cpp: the three functions that fill a `struct msghdr` for recvmsg(2)
-- and sendmsg(2). A pointer into the stack names the frame it points into, counted from the bottom;
-- `frames` are the live ones. Of a frame only the two locals whose addresses are taken are kept.
pub mod Dangling
mod Tests
use unix_ipc_note.Base.{
  ℕ, zero, suc, Bool, true, false, Option, none, some, List, [], ◌∷◌, ◌++◌, length, replicate,
  get_elem?, get_or, if◌then◌else◌, ◌==◌,
}

pub data Place : Type 0 where
  null : Place
  caller : ℕ → Place  -- memory that the caller names
  frame : ℕ → Place  -- a local of the frame with that number

pub record IoVec : Type 0 where
  pub iov_base : Place
  pub iov_len : ℕ

pub record Locals : Type 0 where
  pub iovec_s : List IoVec
  pub cmsg_control : List ℕ

pub record MsgHdr : Type 0 where
  pub msg_name : Place
  pub msg_namelen : ℕ
  pub msg_iov : Place
  pub msg_iovlen : ℕ
  pub msg_control : Place
  pub msg_controllen : ℕ

-- struct msghdr msghdr_s{}
abbrev pub empty : MsgHdr
empty = record {
  msg_name = null;
  msg_namelen = 0;
  msg_iov = null;
  msg_iovlen = 0;
  msg_control = null;
  msg_controllen = 0;
}

-- The header, and the frames that are live.
pub record State : Type 0 where
  pub hdr : MsgHdr
  pub frames : List Locals

-- What the pointers lead to: nothing, if they are null or their frame is gone.
pub frame_at : List Locals → Place → Option Locals
frame_at frames null = none
frame_at frames (caller p) = none
frame_at frames (frame k) = get_elem? frames k

pub vectors : State → Option (List IoVec)
unfolding frame_at
vectors s = elim (frame_at s.frames s.hdr.msg_iov) [ none ↦ none | some l ↦ some l.iovec_s ]

pub control_room : State → Option (List ℕ)
unfolding frame_at
control_room s = elim (frame_at s.frames s.hdr.msg_control) [
  | none ↦ none
  | some l ↦ some l.cmsg_control
]

-- The return of a function, which ends its frame, the last one.
pub leave : List Locals → List Locals
leave [] = []
leave (l ∷ []) = []
leave (l ∷ m ∷ ls) = l ∷ leave (m ∷ ls)

-- CMSG_SPACE(sizeof(int)) and CMSG_SPACE(sizeof(struct in_pktinfo))
abbrev pub space_int : ℕ
space_int = 24

abbrev pub space_pktinfo : ℕ
space_pktinfo = 32

-- The body of struct_msghdr_cmsghdr and of struct_msghdr_cmsghdr_01, up to the return; they differ in
-- the size of the union `cmsg_control`.
abbrev fill_one : ℕ → MsgHdr → Place → ℕ → Place → ℕ → List Locals → State
fill_one space hdr address addr_len data_base data_len frames = record {
  hdr = record hdr {
    msg_name = address;
    msg_namelen = addr_len;
    msg_iov = frame (length frames);
    msg_iovlen = 1;
    msg_control = frame (length frames);
    msg_controllen = space;
  };
  frames =
      frames
      ++ (record {
        iovec_s = (record { iov_base = data_base; iov_len = data_len }) ∷ [];
        cmsg_control = replicate space 0;
      })
        ∷ [];
}

pub fill : MsgHdr → Place → ℕ → Place → ℕ → List Locals → State
fill = fill_one space_int

pub fill_01 : MsgHdr → Place → ℕ → Place → ℕ → List Locals → State
fill_01 = fill_one space_pktinfo

-- The body of struct_msghdr_cmsghdr_02, up to the return.
pub fill_02 : MsgHdr → Place → ℕ → Place → ℕ → Place → ℕ → ℕ → List Locals → State
fill_02 hdr address addr_len base1 len1 base2 len2 mode frames = record {
  hdr = record hdr {
    msg_name = address;
    msg_namelen = addr_len;
    msg_iov = frame (length frames);
    msg_iovlen = 2;
    msg_control = if mode == 0 then hdr.msg_control else frame (length frames);
    msg_controllen = if mode == 0 then hdr.msg_controllen else space_pktinfo;
  };
  frames =
      frames
      ++ (record {
        iovec_s =
            (record { iov_base = base1; iov_len = len1 })
            ∷ (record { iov_base = base2; iov_len = len2 })
            ∷ [];
        cmsg_control = replicate space_pktinfo 0;
      })
        ∷ [];
}

abbrev returning : State → State
returning s = record s { frames = leave s.frames }

pub struct_msghdr_cmsghdr : MsgHdr → Place → ℕ → Place → ℕ → List Locals → State
unfolding fill leave
struct_msghdr_cmsghdr hdr address addr_len data_base data_len frames =
    returning (fill hdr address addr_len data_base data_len frames)

pub struct_msghdr_cmsghdr_01 : MsgHdr → Place → ℕ → Place → ℕ → List Locals → State
unfolding fill_01 leave
struct_msghdr_cmsghdr_01 hdr address addr_len data_base data_len frames =
    returning (fill_01 hdr address addr_len data_base data_len frames)

pub struct_msghdr_cmsghdr_02 : MsgHdr → Place → ℕ → Place → ℕ → Place → ℕ → ℕ → List Locals → State
unfolding fill_02 leave
struct_msghdr_cmsghdr_02 hdr address addr_len base1 len1 base2 len2 mode frames =
    returning (fill_02 hdr address addr_len base1 len1 base2 len2 mode frames)
