-- ===== src/Wrappers.antt =====
-- The wrappers round single system calls: Posix_message_queue/wrap_mqueue.cpp,
-- System_V_message_queue/wrap_msg.cpp, Posix_semaphore/wrap_semphore.cpp,
-- process_signal/wrap_signal.cpp and the wrap_*.cpp of common_lib. Each takes the kernel's answer to
-- its call; a handle is a number.
pub mod Plain
pub mod Receive
pub mod Exits
mod Tests
use unix_ipc_note.Base.{
  Option, some, none, ℕ, zero, suc, ◌+◌, ◌-◌, Bool, true, false, ◌&&◌, List, [], ◌∷◌, ◌++◌, length,
  drop, take, get_or, set, replicate, ℤ, pos, negsuc, minus_one, ◌==◌, if◌then◌else◌,
}
use unix_ipc_note.System.{
  Errno, eintr, eagain, enomsg, eexist, etimedout, Outcome, returned, exited, blocked, Nothing,
  Answer, done, failed,
}
use unix_ipc_note.UnixIo.{newline, trim_newline, overlay, try_again}
use unix_ipc_note.Mesg.{to_bytes}

-- if (call == -1) err_sys(-1, …); return the result.
abbrev pub check {ℓ} : {A : Type ℓ} → Answer A → Outcome A
check (done a) = returned a
check (failed e) = exited minus_one

-- Posix message queues.
pub Mq_open : Answer ℕ → Outcome ℕ
Mq_open a = check a

pub Mq_close : Answer Nothing → Outcome Nothing
Mq_close a = check a

-- `err_ret` reports and returns.
pub Mq_unlink : Answer Nothing → Outcome Nothing
Mq_unlink a = returned tt

pub Mq_send : Answer Nothing → Outcome Nothing
Mq_send a = check a

pub Mq_notify : Answer Nothing → Outcome Nothing
Mq_notify a = check a

pub Mq_getattr : Answer (List ℕ) → Outcome (List ℕ)
Mq_getattr a = check a

pub Mq_setattr : Answer (List ℕ) → Outcome (List ℕ)
Mq_setattr a = check a

-- What a receipt leaves: its value and the memory at the pointer.
pub record Receipt : Type 0 where
  pub value : ℤ
  pub buffer : List ℕ

-- Mq_receive(mqd, ptr, len, prio, mode)
unfoldable pub Mq_receive : ℕ → ℕ → Answer (List ℕ) → Outcome Receipt
Mq_receive len mode (done bs) =
    let (n, buf) = trim_newline mode (length bs) (overlay bs (replicate len 0)) in
    returned (record { value = pos n; buffer = buf })
Mq_receive len mode (failed eagain) =
    returned (record { value = try_again; buffer = replicate len 0 })
Mq_receive len mode (failed e) = exited minus_one

-- System V message queues. A message is its type and its text; in memory the type stands first, in
-- eight bytes.
pub record Message : Type 0 where
  pub mtype : ℕ
  pub mtext : List ℕ

-- struct msg_data, a type, one byte and the peer's process.
pub record MsgData : Type 0 where
  pub mtype : ℕ
  pub mtext : ℕ
  pub peer_id : ℤ

pub msg_data_set : ℕ → ℕ → ℤ → MsgData
msg_data_set mtype mtext peer_id = record { mtype = mtype; mtext = mtext; peer_id = peer_id }

pub Msgctl : Answer (List ℕ) → Outcome (List ℕ)
Msgctl a = check a

pub Msgget : Answer ℕ → Outcome ℕ
Msgget a = check a

pub Msgsnd : Answer Nothing → Outcome Nothing
Msgsnd a = check a

-- memset(msgp, 0, msgsz), which does not reach the end of the struct.
abbrev pub cleared : ℕ → List ℕ → List ℕ
cleared msgsz old = replicate msgsz 0 ++ drop msgsz old

-- Msgrcv(msqid, msgp, msgsz, msgtyp, msgflg, mode), where `old` is the memory at `msgp`, what lies behind the
-- struct there included: msgrcv(2) stores the type and up to msgsz bytes, eight more than are cleared. The
-- byte that is tested for a newline is at msgp + sizeval - 1.
pub Msgrcv : ℕ → ℕ → List ℕ → Answer Message → Outcome Receipt
Msgrcv msgsz mode old (done m) =
    let stored = overlay (to_bytes 8 m.mtype ++ m.mtext) (cleared msgsz old) in
    let (n, buf) = trim_newline mode (length m.mtext) stored in
    returned (record { value = pos n; buffer = buf })
Msgrcv msgsz mode old (failed eintr) =
    returned (record { value = pos 0; buffer = cleared msgsz old })
Msgrcv msgsz mode old (failed eagain) =
    returned (record { value = try_again; buffer = cleared msgsz old })
Msgrcv msgsz mode old (failed enomsg) =
    returned (record { value = negsuc 1234; buffer = cleared msgsz old })
Msgrcv msgsz mode old (failed e) = exited minus_one

-- Posix semaphores.
pub Sem_open : Answer ℕ → Outcome ℕ
Sem_open a = check a

pub Sem_close : Answer Nothing → Outcome Nothing
Sem_close a = check a

pub Sem_unlink : Answer Nothing → Outcome Nothing
Sem_unlink a = check a

pub Sem_init : Answer Nothing → Outcome Nothing
Sem_init a = check a

pub Sem_destroy : Answer Nothing → Outcome Nothing
Sem_destroy a = check a

pub Sem_wait : Answer Nothing → Outcome Nothing
Sem_wait a = check a

-- The value 0, or -1 where the error is the one that is let through.
pub Sem_trywait : Answer Nothing → Outcome ℤ
Sem_trywait (done u) = returned (pos 0)
Sem_trywait (failed eagain) = returned minus_one
Sem_trywait (failed e) = exited minus_one

pub Sem_timedwait : Answer Nothing → Outcome ℤ
Sem_timedwait (done u) = returned (pos 0)
Sem_timedwait (failed etimedout) = returned minus_one
Sem_timedwait (failed e) = exited minus_one

pub Sem_clockwait : Answer Nothing → Outcome ℤ
Sem_clockwait (done u) = returned (pos 0)
Sem_clockwait (failed e) = exited minus_one

pub Sem_post : Answer Nothing → Outcome Nothing
Sem_post a = check a

pub Sem_getvalue : Answer ℕ → Outcome ℕ
Sem_getvalue a = check a

-- Signals. The sets are the kernel's.
pub Sigaddset : Answer (List ℕ) → Outcome (List ℕ)
Sigaddset a = check a

pub Sigprocmask : Answer (List ℕ) → Outcome (List ℕ)
Sigprocmask a = check a

pub Sigsuspend : Answer Nothing → Outcome Nothing
Sigsuspend a = check a

-- sigwait(3) gives back an error number and never -1.
pub Sigwait : ℤ → ℕ → Outcome ℕ
Sigwait (negsuc zero) sig = exited minus_one
Sigwait _ sig = returned sig

pub Sigtimedwait : Answer (List ℕ) → Outcome (List ℕ)
Sigtimedwait a = check a

pub Sigqueue : Answer Nothing → Outcome Nothing
Sigqueue a = check a

pub Waitpid : Answer ℕ → Outcome ℕ
Waitpid a = check a

-- Files and processes.
pub Fcntl : Answer ℕ → Outcome ℕ
Fcntl a = check a

pub Open : Answer ℕ → Outcome ℕ
Open a = check a

pub Close : Answer Nothing → Outcome Nothing
Close a = check a

pub Fork : Answer ℕ → Outcome ℕ
Fork a = check a

-- The value -1 where the FIFO is there already.
pub Mkfifo : Answer Nothing → Outcome ℤ
Mkfifo (done u) = returned (pos 0)
Mkfifo (failed eexist) = returned minus_one
Mkfifo (failed e) = exited minus_one

-- What `Fgets` leaves: whether it gives back a null pointer, and the buffer.
pub record Gotten : Type 0 where
  pub is_null : Bool
  pub buffer : List ℕ

-- The byte at ptr + numc - 1 is tested for a newline.
abbrev pub strip_at_end : ℕ → List ℕ → List ℕ
strip_at_end numc buf = if get_or buf (numc - 1) 0 == newline then set buf (numc - 1) 0 else buf

-- Fgets(ptr, numc, stream) into a buffer that holds `old`. The library's fgets(3) stores at most
-- numc - 1 bytes of the line and a 0, or finds the end of the file and stores nothing.
pub Fgets : ℕ → List ℕ → Answer (Option (List ℕ)) → Outcome Gotten
Fgets numc old (done (some line)) = returned (record {
  is_null = false;
  buffer = strip_at_end numc (overlay (take (numc - 1) line ++ 0 ∷ []) old);
})
Fgets numc old (done none) = returned (record { is_null = true; buffer = strip_at_end numc old })
Fgets numc old (failed e) = exited minus_one
