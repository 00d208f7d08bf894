-- ===== src/Words.antt =====
-- common_lib/stdin_input.cpp (`strtovec`, `hints_strtovec`) and common_lib/if_quit_or_run.cpp: the
-- words of a command line, and the tests for "quit" and "time". Texts are lists of bytes; a
-- position `i` in the text is the text from there on.
pub mod Split
pub mod Join
pub mod Commands
pub mod Strings
pub mod Numbers
mod Tests
use unix_ipc_note.Base.{
  ℕ, zero, suc, Bool, true, false, ◌&&◌, not, List, [], ◌∷◌, ◌++◌, length, take, ℤ, pos, minus_one,
  is_neg, ltb, ◌==◌, if◌then◌else◌,
}
use unix_ipc_note.System.{Outcome, returned, exited, ReadAnswer, got, read_failed}

abbrev pub space : ℕ
space = 32

abbrev pub newline : ℕ
newline = 10

unfoldable pub list_eq : List ℕ → List ℕ → Bool
list_eq [] [] = true
list_eq [] (y ∷ ys) = false
list_eq (x ∷ xs) [] = false
list_eq (x ∷ xs) (y ∷ ys) = x == y && list_eq xs ys

-- hints_str.find(' ', i) and substr(i, pos - i): the bytes up to the next space or the end,
-- and what stands behind that space. `++i` steps over it.
pub next_word : List ℕ → List ℕ
next_word [] = []
next_word (c ∷ cs) = if c == space then [] else c ∷ next_word cs

pub after_space : List ℕ → List ℕ
after_space [] = []
after_space (c ∷ cs) = if c == space then cs else after_space cs

-- if (pos > i && substr(i, pos-i) != "\n") push_back(…)
pub keep_word : List ℕ → Bool
unfolding list_eq
keep_word w = ltb 0 (length w) && not (list_eq w (newline ∷ []))

-- The loop, with a round of fuel for each byte.
pub split_loop : ℕ → List ℕ → List (List ℕ)
unfolding next_word after_space keep_word
split_loop zero text = []
split_loop (suc fuel) [] = []
split_loop (suc fuel) (c ∷ cs) =
    let word = next_word (c ∷ cs) in
    let others = split_loop fuel (after_space (c ∷ cs)) in
    if keep_word word then word ∷ others else others

-- An empty text is an error: err_quit(-1, …).
pub strtovec : List ℕ → Outcome (List (List ℕ))
unfolding split_loop
strtovec [] = exited minus_one
strtovec (c ∷ cs) = returned (split_loop (length (c ∷ cs)) (c ∷ cs))

-- The text up to the first 0, as `cmdbuf = buf` takes it.
unfoldable pub c_string : List ℕ → List ℕ
c_string [] = []
c_string (c ∷ cs) = if c == 0 then [] else c ∷ c_string cs

-- hints_strtovec after the prompt: one read(2) of the terminal; a lone newline becomes a space.
pub hints_strtovec : ReadAnswer → Outcome (List (List ℕ))
unfolding strtovec c_string
hints_strtovec (read_failed e) = exited minus_one
hints_strtovec (got bs) = strtovec (c_string (if list_eq bs (newline ∷ []) then space ∷ [] else bs))

-- strncmp(buf, "quit", 4) == 0
pub if_quit_echo : List ℕ → Bool
unfolding list_eq
if_quit_echo buf = list_eq (take 4 buf) (b'q' ∷ b'u' ∷ b'i' ∷ b't' ∷ [])

-- cmd == buf, or buf.compare(0, 4, cmd.data()) == 0: the first four bytes of `buf` are all of `cmd`.
unfoldable pub if_run : List ℕ → List ℕ → Bool
unfolding list_eq
if_run cmd buf = if list_eq cmd buf then true else list_eq (take 4 buf) cmd
