-- ===== src/Terminal.antt =====
-- common_lib/stdin_input.cpp: `std_cin`, `get_Line`, `name_host_serv` and `port_host_serv`, which read
-- the terminal through std::cin. What std::cin and fgets(3) give is an argument.
pub mod Lines
mod Tests
use unix_ipc_note.Base.{
  ℕ, zero, suc, Bool, true, false, not, ◌&&◌, ◌||◌, Option, none, some, List, [], ◌∷◌, ◌++◌, length,
  take, drop, replicate, ℤ, pos, negsuc, minus_one, leb, ◌==◌, if◌then◌else◌,
}
use unix_ipc_note.System.{Errno, eintr, Outcome, returned, exited, blocked, Answer, done, failed}
use unix_ipc_note.UnixIo.{newline, overlay}
use unix_ipc_note.Words.{list_eq}

-- `cin >> text`, whether cin is good behind it, and errno.
pub record Extraction : Type 0 where
  pub text : List ℕ
  pub good : Bool
  pub errno : Errno

abbrev is_eintr : Errno → Bool
is_eintr eintr = true
is_eintr _ = false

-- The value of std_cin, and the string.
pub std_cin : Extraction → ℤ × List ℕ
std_cin x =
    if x.good
    then (pos (length x.text), x.text)
    else (if is_eintr x.errno then (pos 0, x.text) else (minus_one, []))

abbrev pub carriage_return : ℕ
carriage_return = 13

-- name_str == "\n" || " " || "\r" || "\t"
pub is_blank : List ℕ → Bool
is_blank w =
    list_eq w (newline ∷ [])
    || (list_eq w (b' ' ∷ []) || (list_eq w (carriage_return ∷ []) || list_eq w (9 ∷ [])))

-- The loop of name_host_serv.
pub name_host_serv : List Extraction → Outcome (List ℕ)
unfolding is_blank
name_host_serv [] = blocked
name_host_serv (x ∷ xs) =
    let again = name_host_serv xs in
    if x.good && not (is_blank x.text) then returned x.text else again

-- port_host_serv, where std::stoi throws (`none`) on a text that is no number.
pub port_host_serv : (List ℕ → Option ℤ) → List Extraction → Outcome (Option ℤ)
unfolding name_host_serv
port_host_serv stoi xs = elim (name_host_serv xs) [
  | returned w ↦ returned (stoi w)
  | exited v ↦ exited v
  | blocked ↦ blocked
]

-- What is typed: get(cc) takes a newline or a carriage return away and puts anything else back.
pub skip_newline : List ℕ → List ℕ
skip_newline [] = []
skip_newline (c ∷ cs) = if c == newline || c == carriage_return then cs else c ∷ cs

-- std::getline(std::cin, cmdbuf): the line, and what is left behind its newline; without a newline cin
-- is not good afterwards.
pub next_line : List ℕ → Option (List ℕ × List ℕ)
next_line [] = none
next_line (c ∷ cs) = elim (next_line cs) [
  | none ↦ if c == newline then some ([], cs) else none
  | some (line, rest) ↦ if c == newline then some ([], cs) else some (c ∷ line, rest)
]

-- What get_Line leaves: its value and the bytes at `vptr`; `none` where bytes are stored behind them.
pub record Got : Type 0 where
  pub value : ℤ
  pub buffer : Option (List ℕ)

abbrev pub max_line : ℕ
max_line = 4096

-- What fgets(ptr, MAXLINE, fp) stores: the line, cut to MAXLINE - 1 bytes, and a 0.
abbrev pub stored : ℕ → List ℕ → Option (List ℕ)
stored size line =
    let text = take 4095 line ++ 0 ∷ [] in
    if leb (length text) size then some (overlay text (replicate size 0)) else none

-- get_Line(fp, vptr, size_val), where `fp` is null (`none`), or what fgets(3) gives on it: a line,
-- nothing at the end of the file, or an error.
pub get_Line : Option (Answer (Option (List ℕ))) → ℕ → List ℕ → Got
unfolding skip_newline next_line
get_Line none size typed = elim (next_line (skip_newline typed)) [
  | none ↦ record { value = minus_one; buffer = some (replicate size 0) }
  | some l ↦ record { value = pos 0; buffer = some (replicate size 0) }
]
get_Line (some (done (some line))) size typed = record { value = pos 0; buffer = stored size line }
get_Line (some (done none)) size typed = record { value = pos 0; buffer = some (replicate size 0) }
get_Line (some (failed e)) size typed = record {
  value = minus_one;
  buffer = some (replicate size 0);
}
