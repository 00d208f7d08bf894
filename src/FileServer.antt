-- ===== src/FileServer.antt =====
-- pipe_FIFO/fifo_test.cpp: `test_fifo_one_service`, which copies files into the FIFOs of its clients, and
-- `test_fifo_multiple_client`, which asks for one. The answers of the kernel to each round are arguments,
-- as in Dialogue; a file descriptor is not looked at.
pub mod Request
pub mod Copy
mod Tests
use unix_ipc_note.Base.{
  ◌%◌, ℕ, zero, suc, ◌+◌, ◌-◌, Bool, true, false, List, [], ◌∷◌, ◌++◌, length, take, ℤ, pos, negsuc,
  ltb, int_eq, is_neg, ◌==◌, ◌&&◌, not, if◌then◌else◌,
}
use unix_ipc_note.System.{
  Outcome, returned, exited, blocked, Nothing, ReadAnswer, WriteAnswer, Answer, done, failed,
}
use unix_ipc_note.UnixIo.{Reading, Read, Written, Write, try_again}
use unix_ipc_note.Words.{c_string}
use unix_ipc_note.Words.Numbers.{strtol}
use unix_ipc_note.FileLock.{to_string}
use unix_ipc_note.Broadcast.{maxline}

-- The answers to one Read and one Write.
pub record Turn : Type 0 where
  pub reads : List ReadAnswer
  pub writes : List WriteAnswer

-- What went out, and how the loop has ended.
pub record Copied : Type 0 where
  pub out : List ℕ
  pub fate : Outcome Nothing

abbrev pub behind : List ℕ → Copied → Copied
behind bytes c = record { out = bytes ++ c.out; fate = c.fate }

-- The bytes that Write(fd, buff, bufsize) is given.
abbrev pub front : ℤ → List ℕ → List ℕ
front (pos n) buff = take n buff
front (negsuc n) buff = []

abbrev pub positive : ℤ → Bool
positive (pos n) = ltb 0 n
positive (negsuc n) = false

-- while ((n = Read(from, buff, MAXLINE)) > 0) Write(to, buff, n); in the service and in the client. Where the
-- turns end first, the loop is in a Read or a Write whose answer has not come.
pub copy_loop : List Turn → Copied
copy_loop [] = record { out = []; fate = blocked }
copy_loop (t ∷ ts) = elim (Read maxline 1 t.reads) [
  | returned r ↦
      if positive r.value
      then elim (Write (front r.value r.buffer) t.writes) [
        | returned w ↦ behind w.sent (copy_loop ts)
        | exited v ↦ record { out = []; fate = exited v }
        | blocked ↦ record { out = []; fate = blocked }
      ]
      else record { out = []; fate = returned tt }
  | exited v ↦ record { out = []; fate = exited v }
  | blocked ↦ record { out = []; fate = blocked }
]

-- The end mark: Write(fifo_write_fd, "", 1).
abbrev pub end_mark : List ℕ
end_mark = 0 ∷ []

abbrev pub finish : Copied → List WriteAnswer → Copied
finish c ws = elim c.fate [
  | returned u ↦ elim (Write end_mark ws) [
    | returned w ↦ record { out = c.out ++ w.sent; fate = returned tt }
    | exited v ↦ record c { fate = exited v }
    | blocked ↦ record c { fate = blocked }
  ]
  | exited v ↦ c
  | blocked ↦ c
]

abbrev pub skip_blanks : List ℕ → List ℕ
skip_blanks [] = []
skip_blanks (c ∷ cs) = if c == b' ' then skip_blanks cs else c ∷ cs

-- A long as a pid_t: its low 32 bits, with their sign.
abbrev pub signed_int : ℕ → ℤ
signed_int v = if ltb v 2147483648 then pos v else negsuc (4294967295 - v)

abbrev pub to_pid : ℤ → ℤ
to_pid (pos n) = signed_int (n % 4294967296)
to_pid (negsuc n) = signed_int (4294967295 - n % 4294967296)

-- cpid = strtol(buff, &ptr, 10); then the blanks are stepped over. `ptr` is never null.
pub parse_request : List ℕ → ℤ × List ℕ
parse_request buff = let (cpid, ptr) = strtol (c_string buff) in (to_pid cpid, skip_blanks ptr)

-- What the kernel answers in a round of the service.
pub record Round : Type 0 where
  pub request : List ReadAnswer
  pub client_fifo : Answer ℕ
  pub file : Answer ℕ
  pub copying : List Turn
  pub last : List WriteAnswer

-- What a round comes to: the service leaves its loop, or has waited in vain, or has gone on to the next
-- request, with the process and the path that it read, having written `sent` to the client's FIFO.
pub data Served : Type 0 where
  over : Served
  nothing : Served
  unknown_client : ℤ → Served
  served : ℤ → List ℕ → Copied → Served

-- The reply to a request. A file that cannot be opened makes a text in `filename` that is not sent.
pub reply : Round → ℤ × List ℕ → Served
reply r (cpid, path) = elim r.client_fifo [
  | failed e ↦ unknown_client cpid
  | done fd ↦ elim r.file [
    | failed e ↦ served cpid path (record { out = []; fate = returned tt })
    | done f ↦ served cpid path (finish (copy_loop r.copying) r.last)
  ]
]

-- One round of test_fifo_one_service, from its Read on.
pub one_service_round : Round → Outcome Served
unfolding reply parse_request
one_service_round r = elim (Read maxline 1 r.request) [
  | returned got ↦
      if is_neg got.value && not (int_eq got.value try_again)
      then returned over
      else if int_eq got.value (pos 0)
      then returned nothing
      else returned (reply r (parse_request got.buffer))
  | exited v ↦ exited v
  | blocked ↦ blocked
]

-- snprintf(buff, sizeof(buff), "%d ", cpid)
abbrev pub address : ℕ → List ℕ
address cpid = to_string 20 cpid ++ b' ' ∷ []

-- The request that test_fifo_multiple_client writes: the address and what the terminal gives.
pub client_request : ℕ → List ReadAnswer → List WriteAnswer → Outcome Written
client_request cpid terminal ws = elim (Read (maxline - length (address cpid)) 1 terminal) [
  | returned r ↦ Write (address cpid ++ c_string r.buffer) ws
  | exited v ↦ exited v
  | blocked ↦ blocked
]
