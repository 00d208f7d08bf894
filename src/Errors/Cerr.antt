-- ===== src/Errors/Cerr.antt =====
-- common_lib/error_print.cpp: `myperr` and `err_h_errno`, which write straight to cerr.
use unix_ipc_note.Base.{
  arith, ℕ, zero, suc, ◌+◌, Option, none, some, List, [], ◌∷◌, ◌++◌, ℤ, pos, negsuc, ◌≡◌, refl,
  ◌==◌, if◌then◌else◌,
}
use unix_ipc_note.FileLock.{to_string}
use unix_ipc_note.Errors.{newline, Fate, returns, exits, Site, is_zero}

-- What the C library contributes: strerror, gai_strerror and hstrerror of a number; an error of getaddrinfo(3) may be negative.
pub record Describe : Type 0 where
  pub strerror : ℕ → List ℕ
  pub gai_strerror : ℤ → List ℕ
  pub hstrerror : ℕ → List ℕ

-- An int as std::cerr writes it.
pub decimal : ℤ → List ℕ
decimal (pos n) = to_string 20 n
decimal (negsuc n) = b'-' ∷ to_string 20 (n + 1)

-- What a call leaves: the bytes on cerr, and what becomes of the process.
pub record ErrorText : Type 0 where
  pub text : List ℕ
  pub fate : Fate

-- "Error:"
abbrev error_word : List ℕ
error_word = b'E' ∷ b'r' ∷ b'r' ∷ b'o' ∷ b'r' ∷ b':' ∷ []

-- "theme[ "
abbrev theme_word : List ℕ
theme_word = b't' ∷ b'h' ∷ b'e' ∷ b'm' ∷ b'e' ∷ b'[' ∷ b' ' ∷ []

-- " ];"
abbrev theme_end : List ℕ
theme_end = b' ' ∷ b']' ∷ b';' ∷ []

-- "line["
abbrev line_word : List ℕ
line_word = b'l' ∷ b'i' ∷ b'n' ∷ b'e' ∷ b'[' ∷ []

-- "];"
abbrev line_end : List ℕ
line_end = b']' ∷ b';' ∷ []

-- "value["
abbrev value_word : List ℕ
value_word = b'v' ∷ b'a' ∷ b'l' ∷ b'u' ∷ b'e' ∷ b'[' ∷ []

-- "errno["
abbrev errno_word : List ℕ
errno_word = b'e' ∷ b'r' ∷ b'r' ∷ b'n' ∷ b'o' ∷ b'[' ∷ []

-- "strerror(errno): "
abbrev strerror_word : List ℕ
strerror_word =
    b's' ∷ b't' ∷ b'r' ∷ b'e' ∷ b'r' ∷ b'r' ∷ b'o' ∷ b'r' ∷ b'(' ∷ b'e' ∷ b'r' ∷ b'r' ∷ b'n' ∷ b'o'
    ∷ b')' ∷ b':' ∷ b' ' ∷ []

-- "gai_strerror(errno): "
abbrev gai_word : List ℕ
gai_word =
    b'g' ∷ b'a' ∷ b'i' ∷ b'_' ∷ b's' ∷ b't' ∷ b'r' ∷ b'e' ∷ b'r' ∷ b'r' ∷ b'o' ∷ b'r' ∷ b'(' ∷ b'e'
    ∷ b'r' ∷ b'r' ∷ b'n' ∷ b'o' ∷ b')' ∷ b':' ∷ b' ' ∷ []

-- "hstrerror(errno): "
abbrev hstrerror_word : List ℕ
hstrerror_word =
    b'h' ∷ b's' ∷ b't' ∷ b'r' ∷ b'e' ∷ b'r' ∷ b'r' ∷ b'o' ∷ b'r' ∷ b'(' ∷ b'e' ∷ b'r' ∷ b'r' ∷ b'n'
    ∷ b'o' ∷ b')' ∷ b':' ∷ b' ' ∷ []

pub theme_part : List ℕ → List ℕ
theme_part [] = []
theme_part (c ∷ cs) = theme_word ++ ((c ∷ cs) ++ theme_end)

pub line_part : ℕ → List ℕ
line_part code_line =
    if code_line == 0 then [] else line_word ++ (to_string 20 code_line ++ line_end)

module _ (d : Describe) where
  pub errno_part : ℕ → List ℕ
  errno_part errno =
      if errno == 0
      then []
      else (strerror_word ++ (d.strerror errno ++ newline ∷ []))
        ++ ((gai_word ++ d.gai_strerror (pos errno)) ++ (hstrerror_word ++ d.hstrerror errno))

  -- myperr(retval, ptr, code_line), errno being given: it always returns.
  pub myperr : ℕ → ℤ → List ℕ → ℕ → ErrorText
  unfolding theme_part line_part errno_part decimal
  myperr errno retval ptr code_line =
      if is_zero retval then record { text = []; fate = returns } else record {
        text =
            error_word
            ++ (theme_part ptr
                ++ (line_part code_line
                    ++ (value_word
                        ++ (decimal retval
                            ++ (line_end
                                ++ (errno_word
                                    ++ (to_string 20 errno
                                        ++ (b']' ∷ newline ∷ errno_part errno))))))));
        fate = returns;
      }

-- "Line: "
abbrev line_label : List ℕ
line_label = b'L' ∷ b'i' ∷ b'n' ∷ b'e' ∷ b':' ∷ b' ' ∷ []

-- " ; h_errno: "
abbrev h_errno_label : List ℕ
h_errno_label =
    b' ' ∷ b';' ∷ b' ' ∷ b'h' ∷ b'_' ∷ b'e' ∷ b'r' ∷ b'r' ∷ b'n' ∷ b'o' ∷ b':' ∷ b' ' ∷ []

-- " ; gai_strerror(h_errno): "
abbrev gai_label : List ℕ
gai_label =
    b' ' ∷ b';' ∷ b' ' ∷ b'g' ∷ b'a' ∷ b'i' ∷ b'_' ∷ b's' ∷ b't' ∷ b'r' ∷ b'e' ∷ b'r' ∷ b'r' ∷ b'o'
    ∷ b'r' ∷ b'(' ∷ b'h' ∷ b'_' ∷ b'e' ∷ b'r' ∷ b'r' ∷ b'n' ∷ b'o' ∷ b')' ∷ b':' ∷ b' ' ∷ []

-- The same in the long overload, with a tab and a newline.
abbrev tab_h_errno : List ℕ
tab_h_errno = b';' ∷ 9 ∷ b'h' ∷ b'_' ∷ b'e' ∷ b'r' ∷ b'r' ∷ b'n' ∷ b'o' ∷ b':' ∷ b' ' ∷ []

-- The gai_strerror label of the long overload.
abbrev newline_gai : List ℕ
newline_gai =
    b';' ∷ 10 ∷ b'g' ∷ b'a' ∷ b'i' ∷ b'_' ∷ b's' ∷ b't' ∷ b'r' ∷ b'e' ∷ b'r' ∷ b'r' ∷ b'o' ∷ b'r'
    ∷ b'(' ∷ b'h' ∷ b'_' ∷ b'e' ∷ b'r' ∷ b'r' ∷ b'n' ∷ b'o' ∷ b')' ∷ b':' ∷ b' ' ∷ []

-- "File: "
abbrev file_word : List ℕ
file_word = b'F' ∷ b'i' ∷ b'l' ∷ b'e' ∷ b':' ∷ b' ' ∷ []

-- "Func: "
abbrev func_word : List ℕ
func_word = b'F' ∷ b'u' ∷ b'n' ∷ b'c' ∷ b':' ∷ b' ' ∷ []

-- `label` and a name, if the pointer to it is not null.
pub named : List ℕ → Option (List ℕ) → List ℕ
named label none = []
named label (some name) = label ++ (name ++ b';' ∷ 9 ∷ [])

module _ (d : Describe) where
  -- err_h_errno(ret_value, h_errno_val, code_line)
  pub err_h_errno : ℤ → ℤ → ℕ → ErrorText
  err_h_errno v h code_line = if is_zero v then record { text = []; fate = returns } else record {
    text =
        line_label
        ++ (to_string 20 code_line
            ++ (h_errno_label ++ (decimal h ++ (gai_label ++ (d.gai_strerror h ++ newline ∷ [])))));
    fate = exits v;
  }

  -- The overload with the source file and function.
  pub err_h_errno_at : ℤ → ℤ → Site → ErrorText
  unfolding named
  err_h_errno_at v h s = if is_zero v then record { text = []; fate = returns } else record {
    text =
        named file_word s.code_file
        ++ (named func_word s.code_func
            ++ (line_label
                ++ (to_string 20 s.code_line
                    ++ (tab_h_errno
                        ++ (decimal h ++ (newline_gai ++ (d.gai_strerror h ++ newline ∷ [])))))));
    fate = exits v;
  }

  -- Both overloads of `err_h_errno` come to the same end, and `myperr` returns whatever the value.
  fates_agree :
      (v h : ℤ) (errno code_line : ℕ) (s : Site) (ptr : List ℕ)
      → ((err_h_errno v h code_line).fate ≡ (err_h_errno_at v h s).fate)
        × ((myperr d errno v ptr code_line).fate ≡ returns)
  unfolding err_h_errno err_h_errno_at myperr
  fates_agree (pos zero) h errno code_line s ptr = (refl, refl)
  fates_agree (pos (suc n)) h errno code_line s ptr = (ground arith, ground arith)
  fates_agree (negsuc n) h errno code_line s ptr = (refl, refl)
