-- ===== src/Broadcast.antt =====
-- unix_I_O_FILE/IO_recvfrom_sendto.cpp: `send_all`, which numbers a text on the host and sends it again
-- and again, and `recv_all`, which prints the datagrams it receives. sendto(2)'s results are not looked
-- at; recvfrom(2) answers as read(2) does. And the two wrappers of unix_I_O_FILE/IO_recv_send.cpp.
pub mod Notices
mod Tests
use unix_ipc_note.Base.{
  ℕ, zero, suc, ◌+◌, ◌/◌, ◌%◌, ◌^◌, Bool, true, false, ◌||◌, List, [], ◌∷◌, ◌++◌, length, replicate,
  set, minus_one, ltb, leb, ◌==◌, if◌then◌else◌,
}
use unix_ipc_note.System.{
  Outcome, returned, exited, blocked, ReadAnswer, got, read_failed, Answer, done, failed,
}
use unix_ipc_note.UnixIo.{overlay, newline}
use unix_ipc_note.Words.{c_string}
use unix_ipc_note.FileLock.{to_string}
use unix_ipc_note.Wrappers.{check}

abbrev pub maxline : ℕ
maxline = 4096

-- What Recv leaves: its value, and the `n` bytes at `buf`.
pub record Received : Type 0 where
  pub value : ℕ
  pub buffer : List ℕ

-- Recv(fd, buf, n, flags)
pub Recv : ℕ → Answer (List ℕ) → Outcome Received
Recv n (failed e) = exited minus_one
Recv n (done bs) = returned (record { value = length bs; buffer = overlay bs (replicate n 0) })

-- Send(fd, buf, n, flags), given send(2)'s answer.
pub Send : Answer ℕ → Outcome ℕ
Send a = check a

-- What the receiver prints: the texts on cout, and how many notes on cerr.
pub record Printed : Type 0 where
  pub cout : List (List ℕ)
  pub errors : ℕ

-- What `buf` holds after a datagram: buf[num] = 0.
pub terminate : List ℕ → List ℕ → List ℕ
terminate bs buf = set (overlay bs buf) (length bs) 0

-- The loop of recv_all. An error is noted on cerr and does not end it; an empty datagram does.
pub recv_loop : List ℕ → Printed → List ReadAnswer → Outcome Printed
unfolding terminate
recv_loop buf out [] = blocked
recv_loop buf out (read_failed e ∷ es) = recv_loop buf (record out { errors = out.errors + 1 }) es
recv_loop buf out (got [] ∷ es) = returned out
recv_loop buf out (got (b ∷ bs) ∷ es) =
    let text = c_string (terminate (b ∷ bs) buf) in
    recv_loop (terminate (b ∷ bs) buf) (record out { cout = out.cout ++ text ∷ [] }) es

pub recv_all : List ReadAnswer → Outcome Printed
recv_all es = recv_loop (replicate (maxline + 1) 0) (record { cout = []; errors = 0 }) es

-- struct utsname
pub record Utsname : Type 0 where
  pub sysname : List ℕ
  pub nodename : List ℕ
  pub release : List ℕ
  pub version : List ℕ
  pub machine : List ℕ
  pub domainname : List ℕ

abbrev pub is_in : ℕ → List ℕ → Bool
is_in c [] = false
is_in c (d ∷ chars) = (c == d) || is_in c chars

-- std::string::find_first_of from place `i` on, npos being 2^64 - 1.
pub find_first_of : ℕ → List ℕ → List ℕ → ℕ
find_first_of i chars [] = 18446744073709551615
find_first_of i chars (c ∷ cs) =
    let rest = find_first_of (i + 1) chars cs in if is_in c chars then i else rest

-- "--------- NO:00"
abbrev pub heading : List ℕ
heading =
    b'-' ∷ b'-' ∷ b'-' ∷ b'-' ∷ b'-' ∷ b'-' ∷ b'-' ∷ b'-' ∷ b'-' ∷ b' ' ∷ b'N' ∷ b'O' ∷ b':' ∷ b'0'
    ∷ b'0' ∷ []

-- What send_all leaves on the socket.
pub record Outgoing : Type 0 where
  pub datagrams : List (List ℕ)
  pub shut : Bool

-- strbuf[pos+4] = num%10+'0'; if (num >= 10) strbuf[pos+3] = num/10+'0';
pub number : ℕ → ℕ → List ℕ → List ℕ
number pos num strbuf =
    let units = set strbuf ((pos + 4) % 2 ^ 64) (b'0' + num % 10) in
    if leb 10 num then set units ((pos + 3) % 2 ^ 64) (b'0' + num / 10) else units

-- The loop of send_all, `num` being counted up first; `fuel` bounds the rounds.
pub send_loop : ℕ → ℕ → ℕ → List ℕ → List (List ℕ) → Outcome Outgoing
send_loop zero pos num strbuf out = blocked
send_loop (suc fuel) pos num strbuf out =
    let text = number pos (num + 1) strbuf in
    let rest = send_loop fuel pos (num + 1) text (out ++ text ∷ []) in
    if ltb (num + 1) 10 then rest else returned (record { datagrams = out ++ [] ∷ []; shut = true })

-- The labels of the lines are texts in another alphabet, by their places; each starts a new line.
module _ (label : ℕ → List ℕ) where
  -- What follows the heading.
  pub host_lines : ℕ → Utsname → List ℕ
  host_lines pid u =
      newline
      ∷ (label 0
          ++ (to_string 20 pid
              ++ (newline
                  ∷ (label 1
                      ++ (u.sysname
                          ++ (newline
                              ∷ (label 2
                                  ++ (u.nodename
                                      ++ (newline
                                          ∷ (label 3
                                              ++ (u.release
                                                  ++ (newline
                                                      ∷ (label 4
                                                          ++ (u.version
                                                            ++ (newline
                                                            ∷ (label 5
                                                            ++ (u.machine
                                                            ++ (newline
                                                            ∷ (label 6
                                                            ++ (u.domainname
                                                            ++ newline ∷ []))))))))))))))))))))

  -- send_all, given getpid(2)'s and uname(2)'s answers.
  pub send_all : ℕ → ℕ → Answer Utsname → Outcome Outgoing
  unfolding host_lines
  send_all fuel pid (failed e) = exited minus_one
  send_all fuel pid (done u) =
      let strbuf = heading ++ host_lines pid u in
      send_loop fuel (find_first_of 0 (b'N' ∷ b'O' ∷ b':' ∷ []) strbuf) 0 strbuf []
