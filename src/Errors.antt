-- ===== src/Errors.antt =====
-- common_lib/error_print.cpp: the error reporters that every wrapper of a system call ends in.
-- `err_doit` builds the report; the public functions differ in the log level that they pass and in
-- what they do to the process afterwards. Texts are lists of bytes. The texts that the C library
-- formats (strerror, hstrerror, gai_strerror, the clock) are parameters.
pub mod Buffer
pub mod Endings
pub mod Cerr
mod Tests
use unix_ipc_note.Base.{
  ℕ, zero, suc, ◌+◌, ◌-◌, ◌%◌, ◌^◌, Bool, true, false, not, Option, none, some, List, [], ◌∷◌, ◌++◌,
  length, take, ℤ, pos, negsuc, minus_one, is_neg, ltb, ◌==◌, if◌then◌else◌,
}

-- What the C library contributes: the formatted pieces, newline excluded.
pub record Texts : Type 0 where
  pub errno_text : ℕ → List ℕ  -- "\t{ strerror( errno: %d ): %s }"
  pub h_errno_text : ℕ → List ℕ  -- "\t{ <netdb.h>; hstrerror( h_errno: %d ): %s }"
  pub gai_text : ℤ → List ℕ  -- "\t{ <netdb.h>; gai_strerror( ret_value: %d ): %s }"
  pub time_hms : List ℕ

-- errno, h_errno and daemon_proc at the call.
pub record Globals : Type 0 where
  pub errno : ℕ
  pub h_errno : ℕ
  pub daemon_proc : Bool

pub data LogLevel : Type 0 where
  log_info log_err : LogLevel

-- Where the error was met; the file and the function are null in the short overloads.
pub record Site : Type 0 where
  pub code_file : Option (List ℕ)
  pub code_func : Option (List ℕ)
  pub code_line : ℕ

pub data Channel : Type 0 where
  syslog stderr : Channel

pub record Report : Type 0 where
  pub channel : Channel
  pub level : LogLevel
  pub prefix : List ℕ
  pub line : ℕ
  pub value : ℤ
  pub info : List ℕ

-- MAXsize_error; `buf` has one byte more.
abbrev pub max_size_error : ℕ
max_size_error = 4096

abbrev pub newline : ℕ
newline = 10

-- vsnprintf(buf, MAXsize_error, …): at most MAXsize_error - 1 bytes, then the terminator.
pub format_message : List ℕ → List ℕ
format_message msg = take (max_size_error - 1) msg

-- strcat(buf, "\n")
pub add_newline : List ℕ → List ℕ
add_newline buf = buf ++ newline ∷ []

-- MAXsize_error - buf_len, as a size_t
pub room : List ℕ → ℕ
room buf = (max_size_error + 2 ^ 64 - length buf) % 2 ^ 64

-- snprintf(buf + buf_len, size, …) at the end of `buf`: nothing at size 0, else at most size - 1.
pub print_at_end : ℕ → List ℕ → List ℕ → List ℕ
print_at_end size text buf = buf ++ take (size - 1) text

-- One of the three optional pieces: `if (test) { snprintf(…); strcat(buf, "\n"); }`
pub add_piece : Bool → List ℕ → List ℕ → List ℕ
unfolding add_newline print_at_end room
add_piece test text buf = if test then add_newline (print_at_end (room buf) text buf) else buf

-- ret_value < -1
abbrev pub below_minus_one : ℤ → Bool
below_minus_one (pos n) = false
below_minus_one (negsuc n) = ltb 0 n

module _ (t : Texts) (g : Globals) where
  -- `buf` before the trailing newline is cut off.
  pub fill_buffer : ℤ → List ℕ → List ℕ
  unfolding format_message add_newline add_piece
  fill_buffer v msg = add_piece (below_minus_one v) (t.gai_text v) (
      add_piece (not (g.h_errno == 0)) (t.h_errno_text g.h_errno)
        (add_piece (not (g.errno == 0)) (t.errno_text g.errno) (add_newline (format_message msg))))

-- if (buf[buf_len-1] == '\n') buf[buf_len-1] = '\0';
pub cut_newline : List ℕ → List ℕ
cut_newline [] = []
cut_newline (c ∷ []) = if c == newline then [] else c ∷ []
cut_newline (c ∷ d ∷ cs) = c ∷ cut_newline (d ∷ cs)

abbrev file_part : Option (List ℕ) → List ℕ
file_part none = []
file_part (some f) =
    b'F' ∷ b'i' ∷ b'l' ∷ b'e' ∷ b' ' ∷ b'p' ∷ b'a' ∷ b't' ∷ b'h' ∷ b':' ∷ b' ' ∷ (f ++ newline ∷ [])

abbrev func_part : Option (List ℕ) → List ℕ
func_part none = []
func_part (some f) = f ++ b'(' ∷ b')' ∷ b' ' ∷ b' ' ∷ []

pub build_prefix : Texts → Site → List ℕ
build_prefix t s =
    file_part s.code_file
    ++ (b'[' ∷ b' ' ∷ (t.time_hms ++ (b' ' ∷ b']' ∷ b' ' ∷ b' ' ∷ func_part s.code_func)))

module _ (t : Texts) (g : Globals) where
  -- The report, or nothing where `ret_value` is no error.
  pub err_doit : Site → ℤ → LogLevel → List ℕ → Option Report
  unfolding fill_buffer cut_newline build_prefix
  err_doit s v level msg =
      if is_neg v
      then some (record {
        channel = if g.daemon_proc then syslog else stderr;
        level = level;
        prefix = build_prefix t s;
        line = s.code_line;
        value = v;
        info = cut_newline (fill_buffer t g v msg);
      })
      else none

-- What becomes of the process.
pub data Fate : Type 0 where
  returns : Fate
  exits : ℤ → Fate
  aborts : Fate

-- A call: the report, whether "<function>():exit" or ":abort" follows on cerr, and the fate.
pub record Ending : Type 0 where
  pub report : Option Report
  pub notice : Bool
  pub fate : Fate

-- The two overloads of each function: without and with the source file and function.
pub data Form : Type 0 where
  short long : Form

-- The short overloads pass no file and no function.
abbrev pub site_of : Form → Site → Site
site_of short s = record s { code_file = none; code_func = none }
site_of long s = s

-- The fatal functions pass LOG_ERR in the short overload only.
abbrev pub fatal_level : Form → LogLevel
fatal_level short = log_err
fatal_level long = log_info

-- `if (!daemon_proc) cerr << …` stands in the short overload only.
abbrev pub notice_of : Form → Bool → Bool
notice_of short daemon = not daemon
notice_of long daemon = false

abbrev is_zero : ℤ → Bool
is_zero (pos n) = n == 0
is_zero (negsuc n) = false

-- if (ret_value > 0) err_value = -ret_value; else err_value = ret_value;
pub negated : ℤ → ℤ
negated (pos zero) = pos zero
negated (pos (suc n)) = negsuc n
negated (negsuc n) = negsuc n

module _ (t : Texts) (g : Globals) (f : Form) (s : Site) where
  pub err_ret : ℤ → List ℕ → Ending
  unfolding err_doit
  err_ret v msg = record {
    report = err_doit t g (site_of f s) v log_info msg;
    notice = false;
    fate = returns;
  }

  pub err_msg : ℤ → List ℕ → Ending
  unfolding err_doit
  err_msg v msg = record {
    report = err_doit t g (site_of f s) v log_info msg;
    notice = false;
    fate = returns;
  }

  -- `err_sys` and `err_quit` have one body but for their names.
  pub err_sys : ℤ → List ℕ → Ending
  unfolding err_doit
  err_sys v msg = record {
    report = err_doit t g (site_of f s) v (fatal_level f) msg;
    notice = if is_neg v then notice_of f g.daemon_proc else false;
    fate = if is_neg v then exits v else returns;
  }

  pub err_quit : ℤ → List ℕ → Ending
  unfolding err_doit
  err_quit v msg = record {
    report = err_doit t g (site_of f s) v (fatal_level f) msg;
    notice = if is_neg v then notice_of f g.daemon_proc else false;
    fate = if is_neg v then exits v else returns;
  }

  pub err_dump : ℤ → List ℕ → Ending
  unfolding err_doit
  err_dump v msg = record {
    report = err_doit t g (site_of f s) v (fatal_level f) msg;
    notice = if is_neg v then notice_of f g.daemon_proc else false;
    fate = if is_neg v then aborts else returns;
  }

  -- For getaddrinfo(): every value but 0 is an error.
  pub err_addrinfo : ℤ → List ℕ → Ending
  unfolding err_doit negated
  err_addrinfo v msg =
      if is_zero v then record { report = none; notice = false; fate = returns } else record {
        report = err_doit t g (site_of f s) (negated v) (fatal_level f) msg;
        notice = notice_of f g.daemon_proc;
        fate = exits v;
      }
