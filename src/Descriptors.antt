-- ===== src/Descriptors.antt =====
-- unix_I_O_FILE/IO_recvmsg_sendmsg.cpp, `read_fd` and `write_fd`: descriptors passed over a socket. The
-- header that these pass to recvmsg(2) points to locals of a function that has returned, see
-- MessageHeader; what the code finds there is here part of the kernel's answer. A descriptor is a
-- number below 2 ^ 31.
pub mod Transfer
mod Tests
use unix_ipc_note.Base.{
  ℕ, List, [], ◌∷◌, length, take, ℤ, pos, negsuc, minus_one, ◌==◌, if◌then◌else◌,
}
use unix_ipc_note.System.{Outcome, returned, exited, blocked, Answer, done, failed}
use unix_ipc_note.UnixIo.{overlay}
use unix_ipc_note.Mesg.{to_bytes, from_bytes}

-- struct cmsghdr with the data behind it.
pub record Cmsg : Type 0 where
  pub cmsg_len : ℕ
  pub cmsg_level : ℕ
  pub cmsg_type : ℕ
  pub cmsg_data : List ℕ

-- What a successful recvmsg(2) leaves: the bytes in the order of the vectors, the members of the
-- header, and the control messages that CMSG_FIRSTHDR and CMSG_NXTHDR go through.
pub record Arrival : Type 0 where
  pub bytes : List ℕ
  pub msg_namelen : ℕ
  pub msg_controllen : ℕ
  pub msg_flags : ℕ
  pub control : List Cmsg

abbrev pub sol_socket : ℕ
sol_socket = 1

abbrev pub scm_rights : ℕ
scm_rights = 1

-- CMSG_LEN(sizeof(int))
abbrev pub len_int : ℕ
len_int = 20

-- What read_fd leaves: its value, the descriptor and the memory at `ptr`.
pub record Passed : Type 0 where
  pub value : ℤ
  pub recv_fd : ℤ
  pub buffer : List ℕ

-- The test of the first control message, and the descriptor in it.
pub take_fd : Arrival → List ℕ → List Cmsg → Outcome Passed
take_fd a buf [] =
    returned (record { value = pos (length a.bytes); recv_fd = minus_one; buffer = buf })
take_fd a buf (c ∷ cs) =
    if c.cmsg_len == len_int
    then if c.cmsg_level == sol_socket
      then if c.cmsg_type == scm_rights
        then returned (record {
          value = pos (length a.bytes);
          recv_fd = pos (from_bytes (take 4 c.cmsg_data));
          buffer = buf;
        })
        else exited minus_one
      else exited minus_one
    else returned (record { value = pos (length a.bytes); recv_fd = minus_one; buffer = buf })

-- read_fd(sock_fd, ptr, nbytes, recv_fd), with `old` at `ptr` and `fd` in recv_fd.
pub read_fd : List ℕ → ℤ → Answer Arrival → Outcome Passed
unfolding take_fd
read_fd old fd (failed e) = returned (record { value = minus_one; recv_fd = fd; buffer = old })
read_fd old fd (done a) = elim a.bytes [
  | [] ↦ returned (record { value = pos 0; recv_fd = fd; buffer = old })
  | b ∷ bs ↦ take_fd a (overlay (b ∷ bs) old) a.control
]

-- err_sys(retval, …), which ends the process if the value is negative.
abbrev pub err_sys_value : ℤ → Outcome ℤ
err_sys_value (pos n) = returned (pos n)
err_sys_value (negsuc n) = exited (negsuc n)

abbrev pub after_read : Passed → Outcome Passed
after_read p = elim (err_sys_value p.value) [
  | returned v ↦ returned p
  | exited v ↦ exited v
  | blocked ↦ blocked
]

pub Read_fd : List ℕ → ℤ → Answer Arrival → Outcome Passed
unfolding read_fd
Read_fd old fd a = elim (read_fd old fd a) [
  | returned p ↦ after_read p
  | exited v ↦ exited v
  | blocked ↦ blocked
]

-- write_fd and Write_fd, by the kernel's answer to sendmsg(2). The header leads to frames that are gone, as
-- MessageHeader shows, and what sendmsg(2) finds there is not known.
abbrev pub sent_value : Answer ℕ → ℤ
sent_value (done n) = pos n
sent_value (failed e) = minus_one

pub write_fd : Answer ℕ → ℤ
write_fd a = sent_value a

pub Write_fd : Answer ℕ → Outcome ℤ
unfolding write_fd
Write_fd a = err_sys_value (write_fd a)
