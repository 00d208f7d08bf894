-- ===== src/Terminal/Lines.antt =====
-- What the readers of the terminal store.
use unix_ipc_note.Base.{
  ℕ, ◌+◌, ◌<◌, ◌≤◌, ◌≡◌, refl, true, false, not, ◌&&◌, none, some, List, [], ◌∷◌, ◌++◌, length,
  take, replicate, length-append, length-take, leb, arith,
}
use unix_ipc_note.System.{returned, done}
use unix_ipc_note.Terminal.{Extraction, is_blank, name_host_serv, get_Line, max_line}

-- With a null stream `get_Line` stores nothing: whatever is typed, the buffer is all zeros.
pub get_Line_null :
    (size : ℕ) (typed : List ℕ) → (get_Line none size typed).buffer ≡ some (replicate size 0)
unfolding get_Line
get_Line_null size typed = ground arith

too_long : (n size : ℕ) → size ≤ n → leb (n + 1) size ≡ false
too_long n size h = ground arith

-- With a stream the line goes into the buffer by MAXLINE, not by the size that the caller gave: a line
-- that does not fit is stored behind the buffer's end.
pub get_Line_overflow :
    (size : ℕ) (line typed : List ℕ)
    → length line < max_line
    → size ≤ length line
    → (get_Line (some (done (some line))) size typed).buffer ≡ none
unfolding get_Line
get_Line_overflow size line typed short long =
    let size' = length-append (take 4095 line) (0 ∷ []) in
    let cut = length-take 4095 line in
    let whole : length (take 4095 line ++ 0 ∷ []) ≡ length line + 1 = omega (arith, size', cut) in
    rw (whole, too_long (length line) size long) refl

-- All are read badly, or are blanks.
abbrev pub AllPassed : List Extraction → Type 0
AllPassed [] = Unit
AllPassed (x ∷ xs) = (x.good && not (is_blank x.text) ≡ false) × AllPassed xs

-- The name that is taken is the first that is read well and is no blank; before it there is none.
pub name_host_serv-skips :
    (bad : List Extraction) (x : Extraction) (later : List Extraction)
    → AllPassed bad
    → x.good ≡ true
    → is_blank x.text ≡ false
    → name_host_serv (bad ++ x ∷ later) ≡ returned x.text
unfolding name_host_serv
name_host_serv-skips [] x later passed well full = ground arith
name_host_serv-skips (b ∷ bad) x later passed well full =
    ground (arith, passed, name_host_serv-skips bad x later passed.1 well full)
