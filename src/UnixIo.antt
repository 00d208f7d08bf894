-- ===== src/UnixIo.antt =====
-- unix_I_O_FILE/IO_read_write.cpp: `Read`, `Write` and `readline_slow`, the loops round read(2) and
-- write(2) that retry after a signal and turn other errors into return values or an exit.
pub mod ReadLaws
pub mod WriteLaws
pub mod LineLaws
mod Tests
use unix_ipc_note.Base.{
  ℕ, zero, suc, ◌+◌, ◌-◌, ◌<◌, Bool, true, false, ◌&&◌, List, [], ◌∷◌, ◌++◌, length, take, drop,
  replicate, get_or, set, ℤ, pos, negsuc, minus_one, ltb, ◌==◌, if◌then◌else◌,
}
use unix_ipc_note.System.{
  Errno, eintr, eagain, econnreset, echild, Outcome, returned, exited, blocked, ReadAnswer, got,
  read_failed, WriteAnswer, wrote, write_failed,
}

abbrev pub newline : ℕ
newline = 10

-- What `Read` leaves: its value, and the `size_val` bytes at `ptr`.
pub record Reading : Type 0 where
  pub value : ℤ
  pub buffer : List ℕ
  pub rest : List ReadAnswer

-- The kernel stores what it read at the front of the cleared buffer.
abbrev pub overlay : List ℕ → List ℕ → List ℕ
overlay bs buf = bs ++ drop (length bs) buf

-- if (mode == 1 && retval > 1): a newline in the last place becomes 0, and is not counted.
unfoldable pub trim_newline : ℕ → ℕ → List ℕ → ℕ × List ℕ
trim_newline mode n buf =
    if mode == 1 && ltb 1 n && (get_or buf (n - 1) 0 == newline)
    then (n - 1, set buf (n - 1) 0)
    else (n, buf)

-- -1234, the value for "try again".
abbrev pub try_again : ℤ
try_again = negsuc 1233

-- What an error of read(2) or write(2) leads to: another try, a return with a value, or `err_sys`.
pub data OnError : Type 0 where
  retry : OnError
  leave : ℤ → OnError
  fatal : OnError

pub on_read_error : Errno → OnError
on_read_error eagain = leave try_again
on_read_error eintr = retry
on_read_error econnreset = leave (pos 0)
on_read_error echild = leave (pos 0)
on_read_error _ = fatal

-- Read(fd, ptr, size_val, mode): memset, then read(fd, ptr, size_val-1) until it is not interrupted.
pub Read : ℕ → ℕ → List ReadAnswer → Outcome Reading
unfolding trim_newline on_read_error
Read size mode [] = blocked
Read size mode (got [] ∷ es) =
    returned (record { value = pos 0; buffer = replicate size 0; rest = es })
Read size mode (got (b ∷ bs) ∷ es) =
    let (n, buf) = trim_newline mode (length (b ∷ bs)) (overlay (b ∷ bs) (replicate size 0)) in
    returned (record { value = pos n; buffer = buf; rest = es })
Read size mode (read_failed e ∷ es) = elim (on_read_error e) [
  | retry ↦ Read size mode es
  | leave v ↦ returned (record { value = v; buffer = replicate size 0; rest = es })
  | fatal ↦ exited minus_one
]

-- What `Write` leaves: its value, and the bytes that went out, in order.
pub record Written : Type 0 where
  pub value : ℤ
  pub sent : List ℕ

-- The loop of `Write`: `left` are the bytes from `pptr` on, `nleft` many. EINTR counts as 0 bytes:
-- `err_sys(0, …)` returns. Any other error exits.
pub write_loop : ℕ → List ℕ → List ℕ → List WriteAnswer → Outcome Written
write_loop size [] sent es = returned (record { value = pos size; sent = sent })
write_loop size (b ∷ left) sent [] = blocked
write_loop size (b ∷ left) sent (wrote n ∷ es) =
    write_loop size (drop n (b ∷ left)) (sent ++ take n (b ∷ left)) es
write_loop size (b ∷ left) sent (write_failed eintr ∷ es) = write_loop size (b ∷ left) sent es
write_loop size (b ∷ left) sent (write_failed e ∷ es) = exited minus_one

pub Write : List ℕ → List WriteAnswer → Outcome Written
unfolding write_loop
Write bytes es = write_loop (length bytes) bytes [] es

-- What `readline_slow` leaves: its value, and the bytes stored from `vptr` on, the final 0 included.
pub record Line : Type 0 where
  pub value : ℤ
  pub stored : List ℕ
  pub rest : List ReadAnswer

-- The loop of `readline_slow`, a read(fd, &c, 1) for each byte. `numval` counts from 1; `budget` is
-- size_val - numval, the rounds that are left.
pub readline_loop : ℕ → ℕ → List ℕ → List ReadAnswer → Outcome Line
readline_loop zero numval line es =
    returned (record { value = pos numval; stored = line ++ 0 ∷ []; rest = es })
readline_loop (suc budget) numval line [] = blocked
readline_loop (suc budget) numval line (got [] ∷ es) =
    returned (record { value = pos (numval - 1); stored = line ++ 0 ∷ []; rest = es })
readline_loop (suc budget) numval line (got (c ∷ _) ∷ es) = elim (c == newline) [
  | true ↦ returned (record { value = pos numval; stored = (line ++ c ∷ []) ++ 0 ∷ []; rest = es })
  | false ↦ readline_loop budget (numval + 1) (line ++ c ∷ []) es
]
readline_loop (suc budget) numval line (read_failed eintr ∷ es) =
    readline_loop (suc budget) numval line es
readline_loop (suc budget) numval line (read_failed e ∷ es) =
    returned (record { value = minus_one; stored = line; rest = es })

pub readline_slow : ℕ → List ReadAnswer → Outcome Line
unfolding readline_loop
readline_slow size es = readline_loop (size - 1) 1 [] es
