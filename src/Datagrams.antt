-- ===== src/Datagrams.antt =====
-- unix_I_O_FILE/IO_recvmsg_sendmsg.cpp, datagrams with control data: `recvmsg_flags`, `recvmsg_seq_ts`
-- and `Sendmsg_seq_ts`. What the code finds at the pointers of the header is part of the kernel's
-- answer, as in Descriptors.
pub mod Agreement
mod Tests
use unix_ipc_note.Base.{
  ℕ, ◌/◌, ◌%◌, Bool, true, ◌&&◌, ◌||◌, Option, none, some, List, [], ◌∷◌, ◌++◌, length, take, drop,
  ℤ, pos, negsuc, minus_one, ltb, ◌==◌, if◌then◌else◌,
}
use unix_ipc_note.System.{Outcome, returned, exited, blocked, Answer, done, failed}
use unix_ipc_note.UnixIo.{overlay}
use unix_ipc_note.Mesg.{from_bytes}
use unix_ipc_note.Descriptors.{Cmsg, Arrival, err_sys_value, sent_value}

abbrev pub ipproto_ip : ℕ
ipproto_ip = 0

abbrev pub ip_pktinfo : ℕ
ip_pktinfo = 8

-- sizeof(struct cmsghdr)
abbrev pub cmsghdr_size : ℕ
cmsghdr_size = 16

-- msg_flags & MSG_CTRUNC
abbrev pub is_truncated : ℕ → Bool
is_truncated flags = (flags / 8) % 2 == 1

-- struct in_pktinfo; an address is its four bytes.
pub record PktInfo : Type 0 where
  pub ipi_ifindex : ℕ
  pub ipi_spec_dst : List ℕ
  pub ipi_addr : List ℕ

abbrev pub zero_info : PktInfo
zero_info = record {
  ipi_ifindex = 0;
  ipi_spec_dst = 0 ∷ 0 ∷ 0 ∷ 0 ∷ [];
  ipi_addr = 0 ∷ 0 ∷ 0 ∷ 0 ∷ [];
}

-- The three members, copied out of the data of a control message.
pub copy_info : List ℕ → PktInfo
copy_info bs = record {
  ipi_ifindex = from_bytes (take 4 bs);
  ipi_spec_dst = take 4 (drop 4 bs);
  ipi_addr = take 4 (drop 8 bs);
}

abbrev pub is_pktinfo : Cmsg → Bool
is_pktinfo c = c.cmsg_level == ipproto_ip && c.cmsg_type == ip_pktinfo

-- What the two receivers leave: the value, salenptr, flags, *pktinfo, and the memory at the pointers.
pub record Datagram : Type 0 where
  pub value : ℤ
  pub salen : ℕ
  pub flags : ℕ
  pub pktinfo : Option PktInfo
  pub buffer : List ℕ
  pub second : List ℕ

-- The loop of recvmsg_flags: any other control message ends the process. Of the three kinds that the
-- source knows, Linux defines IP_PKTINFO only.
pub flags_loop : PktInfo → List Cmsg → Outcome PktInfo
unfolding copy_info
flags_loop p [] = returned p
flags_loop p (c ∷ cs) =
    let rest = flags_loop (copy_info c.cmsg_data) cs in
    if is_pktinfo c then rest else exited minus_one

abbrev pub cannot_tell : Arrival → Option PktInfo → Bool
cannot_tell a none = true
cannot_tell a (some p) = ltb a.msg_controllen cmsghdr_size || is_truncated a.msg_flags

abbrev pub cleared_info : Option PktInfo → Option PktInfo
cleared_info none = none
cleared_info (some p) = some zero_info

abbrev pub minus_two : ℤ
minus_two = negsuc 1

-- recvmsg_flags(sock_fd, ptr, nbytes, flags, sa, salenptr, pktinfo), a null pktinfo being `none`.
pub recvmsg_flags : List ℕ → ℕ → ℕ → Option PktInfo → Answer Arrival → Outcome Datagram
unfolding flags_loop
recvmsg_flags old flags salen info (failed e) = returned (record {
  value = minus_one;
  salen = salen;
  flags = flags;
  pktinfo = info;
  buffer = old;
  second = [];
})
recvmsg_flags old flags salen info (done a) = elim a.bytes [
  | [] ↦ returned (record {
    value = pos 0;
    salen = salen;
    flags = flags;
    pktinfo = info;
    buffer = old;
    second = [];
  })
  | b ∷ bs ↦
      let left : Datagram = record {
        value = pos (length a.bytes);
        salen = a.msg_namelen;
        flags = a.msg_flags;
        pktinfo = cleared_info info;
        buffer = overlay (b ∷ bs) old;
        second = [];
      } in
      if cannot_tell a info
      then returned (record left { value = minus_two })
      else elim (flags_loop zero_info a.control) [
        | returned p ↦ returned (record left { pktinfo = some p })
        | exited v ↦ exited v
        | blocked ↦ blocked
      ]
]

abbrev pub after_receipt : Datagram → Outcome Datagram
after_receipt d = elim (err_sys_value d.value) [
  | returned v ↦ returned d
  | exited v ↦ exited v
  | blocked ↦ blocked
]

pub Recvfrom_flags : List ℕ → ℕ → ℕ → Option PktInfo → Answer Arrival → Outcome Datagram
unfolding recvmsg_flags
Recvfrom_flags old flags salen info a = elim (recvmsg_flags old flags salen info a) [
  | returned d ↦ after_receipt d
  | exited v ↦ exited v
  | blocked ↦ blocked
]

-- The loop of recvmsg_seq_ts: any other control message is reported.
pub seq_loop : PktInfo → List Cmsg → PktInfo
unfolding copy_info
seq_loop p [] = p
seq_loop p (c ∷ cs) = seq_loop (if is_pktinfo c then copy_info c.cmsg_data else p) cs

abbrev pub seq_info : List Cmsg → Option PktInfo → Option PktInfo
seq_info control none = none
seq_info control (some p) = some (seq_loop zero_info control)

-- recvmsg_seq_ts(sock_fd, ptr1, nbytes1, ptr2, nbytes2, sa, salenptr, pktinfo): the bytes fill the
-- first buffer, then the second. `flags` is no parameter of it and stays 0.
pub recvmsg_seq_ts : List ℕ → ℕ → List ℕ → ℕ → Option PktInfo → Answer Arrival → Outcome Datagram
unfolding seq_loop
recvmsg_seq_ts old1 nbytes1 old2 salen info (failed e) = returned (record {
  value = minus_one;
  salen = salen;
  flags = 0;
  pktinfo = info;
  buffer = old1;
  second = old2;
})
recvmsg_seq_ts old1 nbytes1 old2 salen info (done a) = elim a.bytes [
  | [] ↦ returned (record {
    value = pos 0;
    salen = salen;
    flags = 0;
    pktinfo = info;
    buffer = old1;
    second = old2;
  })
  | b ∷ bs ↦
      let left : Datagram = record {
        value = pos (length a.bytes);
        salen = a.msg_namelen;
        flags = 0;
        pktinfo = info;
        buffer = overlay (take nbytes1 (b ∷ bs)) old1;
        second = overlay (drop nbytes1 (b ∷ bs)) old2;
      } in
      if ltb a.msg_controllen cmsghdr_size || is_truncated a.msg_flags
      then returned (record left { value = minus_two })
      else returned (record left { pktinfo = seq_info a.control info })
]

pub Recvmsg_seq_ts : List ℕ → ℕ → List ℕ → ℕ → Option PktInfo → Answer Arrival → Outcome Datagram
unfolding recvmsg_seq_ts
Recvmsg_seq_ts old1 nbytes1 old2 salen info a =
    elim (recvmsg_seq_ts old1 nbytes1 old2 salen info a) [
      | returned d ↦ after_receipt d
      | exited v ↦ exited v
      | blocked ↦ blocked
    ]

-- Sendmsg_seq_ts, by the kernel's answer to sendmsg(2), as in Descriptors.
pub Sendmsg_seq_ts : Answer ℕ → Outcome ℤ
Sendmsg_seq_ts a = err_sys_value (sent_value a)
