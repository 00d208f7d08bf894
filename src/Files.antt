-- ===== src/Files.antt =====
-- unix_I_O_FILE/IO_File_creat-open-read-close.cpp: the demonstrations on one file. A file is the list
-- of its bytes, as open(2), write(2), lseek(2) and mmap(2) leave it; a descriptor is the kernel's
-- answer to open(2). An exit is that of error(3), with errno.
pub mod Replace
pub mod Mapped
pub mod Reading
mod Tests
use unix_ipc_note.Base.{
  ℕ, zero, suc, ◌+◌, ◌-◌, ◌*◌, ◌%◌, Bool, true, false, ◌&&◌, ◌||◌, Option, none, some, List, [],
  ◌∷◌, ◌++◌, length, take, drop, replicate, ℤ, pos, negsuc, minus_one, ◌==◌, if◌then◌else◌,
}
use unix_ipc_note.System.{
  Errno, Outcome, returned, exited, blocked, ReadAnswer, got, read_failed, Answer, done, failed,
  Nothing,
}

-- errno as a number.
pub record Numbers : Type 0 where
  pub number : Errno → ℕ

module _ (n : Numbers) where
  -- file_error_print(errnum, …), where error(3) ends the process if errno is not 0.
  pub file_error_print : Answer ℕ → Outcome ℕ
  file_error_print (done v) = returned v
  file_error_print (failed e) = if n.number e == 0 then returned 0 else exited (pos (n.number e))

  -- The loop `while (size)` of file_open_read, with what it prints.
  pub read_loop : List ReadAnswer → Outcome (List ℕ)
  read_loop [] = blocked
  read_loop (got [] ∷ es) = returned []
  read_loop (got (b ∷ bs) ∷ es) = elim (read_loop es) [
    | returned more ↦ returned ((b ∷ bs) ++ more)
    | exited v ↦ exited v
    | blocked ↦ blocked
  ]
  read_loop (read_failed e ∷ es) =
      if n.number e == 0 then returned [] else exited (pos (n.number e))

  pub file_open_read : Answer ℕ → List ReadAnswer → Outcome (List ℕ)
  file_open_read fd es = elim (file_error_print fd) [
    | returned v ↦ read_loop es
    | exited v ↦ exited v
    | blocked ↦ blocked
  ]

  -- file_creat_close: both files are emptied or made.
  pub file_creat_close : Answer ℕ → Answer ℕ → Outcome (List ℕ × List ℕ)
  file_creat_close fd fd02 = elim (file_error_print fd) [
    | returned v ↦ elim (file_error_print fd02) [
      | returned w ↦ returned ([], [])
      | exited w ↦ exited w
      | blocked ↦ blocked
    ]
    | exited v ↦ exited v
    | blocked ↦ blocked
  ]

abbrev pub added : List ℕ
added = b'\n' ∷ b'+' ∷ b'+' ∷ b'+' ∷ b'+' ∷ b'+' ∷ b'+' ∷ []

abbrev pub brackets : List ℕ
brackets = b' ' ∷ b'(' ∷ b')' ∷ b' ' ∷ []

-- write(2) at the offset: a gap behind the end is filled with zeros.
pub write_at : ℕ → List ℕ → List ℕ → List ℕ
write_at offset bs file =
    take offset (file ++ replicate (offset - length file) 0)
    ++ (bs ++ drop (offset + length bs) file)

-- file_open_write, where all system calls succeed: O_APPEND.
pub file_open_write : List ℕ → List ℕ
file_open_write file = write_at (length file) added file

-- file_location_write, where all system calls succeed: lseek(fd, 1, SEEK_END), then write.
pub file_location_write : List ℕ → List ℕ
file_location_write file = write_at (length file + 1) brackets file

abbrev pub str_seek : List ℕ
str_seek = b'1' ∷ b'2' ∷ b'3' ∷ []

abbrev pub str_replace : List ℕ
str_replace = b'z' ∷ b'c' ∷ b'q' ∷ []

pub starts : List ℕ → Bool
starts (a ∷ b ∷ c ∷ cs) = a == b'1' && b == b'2' && c == b'3'
starts _ = false

abbrev pub one_later : Option ℕ → Option ℕ
one_later none = none
one_later (some k) = some (k + 1)

-- strstr(ptr, "123"): the place of the first occurrence before the first 0. The memory ends in a 0.
pub strstr : List ℕ → Option ℕ
strstr [] = none
strstr (c ∷ cs) =
    let rest = strstr cs in
    if starts (c ∷ cs) then some 0 else (if c == 0 then none else one_later rest)

-- The loop of file_map with the fuel of its rounds: `ptr` are the bytes from the pointer on. Each round
-- overwrites three bytes and moves behind them.
pub replace_loop : ℕ → List ℕ → Option (List ℕ)
replace_loop zero ptr = none
replace_loop (suc f) ptr = elim (strstr ptr) [
  | none ↦ some ptr
  | some k ↦ elim (replace_loop f (drop (k + 3) ptr)) [
    | none ↦ none
    | some rest ↦ some (take k ptr ++ (str_replace ++ rest))
  ]
]

abbrev pub page_size : ℕ
page_size = 4096

-- A mapping of the file: its bytes and the zeros to the end of the last page. There are none if the file
-- fills its pages.
pub mapping : List ℕ → List ℕ
mapping file = file ++ replicate ((page_size - length file % page_size) % page_size) 0

abbrev pub has_zero : List ℕ → Bool
has_zero [] = false
has_zero (c ∷ cs) = c == 0 || has_zero cs

-- What file_map leaves in the file. The first, private mapping is printed only, and stays mapped. Where there
-- is no 0 in the mapping, the printing and strstr read on behind it, and what comes of that depends on what is
-- mapped there and on whether it can be written: `astray`.
pub file_map : (List ℕ → Option (List ℕ)) → List ℕ → Option (List ℕ)
file_map astray file =
    if has_zero (mapping file)
    then elim (replace_loop (length (mapping file) + 1) (mapping file)) [
      | none ↦ none
      | some mem ↦ some (take (length file) mem)
    ]
    else astray file
