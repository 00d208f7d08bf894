-- ===== src/Clock.antt =====
-- common_lib/get_time_debug.cpp: the texts of the clock. What the C library makes of the time (the text
-- of ctime(3), the members of localtime(3)'s struct tm) is an argument.
pub mod Texts
mod Tests
use unix_ipc_note.Base.{
  ℕ, zero, suc, ◌+◌, ◌-◌, ◌*◌, ◌/◌, ◌%◌, ◌≤◌, Bool, true, false, Option, none, some, List, [], ◌∷◌,
  ◌++◌, length, take, drop, replicate, minus_one, ltb, leb, ◌==◌, if◌then◌else◌,
}
use unix_ipc_note.System.{Outcome, returned, exited, Nothing, Answer, done, failed}
use unix_ipc_note.UnixIo.{overlay}
use unix_ipc_note.Words.{c_string}
use unix_ipc_note.FileLock.{to_string}

-- The last `k` decimal digits of a number: "%06ld" of a number below a million is `digits 6`.
pub digits : ℕ → ℕ → List ℕ
digits zero n = []
digits (suc k) n = digits k (n / 10) ++ (b'0' + n % 10) ∷ []

-- strcpy(buf, text) into an array of `size` bytes, `none` being a write behind it.
pub strcpy : ℕ → List ℕ → List ℕ → Option (List ℕ)
strcpy size buf text = if ltb (length text) size then some (overlay (text ++ 0 ∷ []) buf) else none

-- snprintf(buf + 8, 8, ".%06ld", usec): at most seven bytes and a 0.
pub print_usec : ℕ → List ℕ → List ℕ
unfolding digits
print_usec usec buf = take 8 buf ++ overlay (take 7 (b'.' ∷ digits 6 usec) ++ 0 ∷ []) (drop 8 buf)

-- time_hms, given gettimeofday(2)'s answer, the microseconds, and ctime(3)'s text.
pub time_hms : Answer ℕ → List ℕ → Outcome (Option (List ℕ))
time_hms (failed e) text = exited minus_one
time_hms (done usec) text = elim (strcpy 16 (replicate 16 0) (drop 11 text)) [
  | none ↦ returned none
  | some buf ↦ returned (some (c_string (print_usec usec buf)))
]

-- The static `start` of time_clock and time_time, and whether the text is printed: the test is
-- tmp - start >= millisecond.
pub time_clock : ℕ → ℕ → ℕ → ℕ × Bool
time_clock millisecond start tmp =
    if leb (start + millisecond) tmp then (tmp, true) else (start, false)

pub time_time : ℕ → ℕ → ℕ → ℕ × Bool
time_time second start tmp = if leb (start + second) tmp then (tmp, true) else (start, false)

-- struct tm, for a year from 1900 on.
pub record Tm : Type 0 where
  pub tm_year : ℕ
  pub tm_mon : ℕ
  pub tm_mday : ℕ
  pub tm_wday : ℕ
  pub tm_hour : ℕ
  pub tm_min : ℕ
  pub tm_sec : ℕ

module _ (names : ℕ → List ℕ) where
  -- The names of the seven days are texts in another alphabet, by their numbers.
  pub weekday : ℕ → List ℕ
  weekday d = if ltb d 7 then names d else []

  -- std::to_string
  abbrev num : ℕ → List ℕ
  num n = to_string 20 n

  pub time_local_r : Option Tm → Outcome (List ℕ)
  unfolding weekday
  time_local_r none = exited minus_one
  time_local_r (some t) = returned (
      num (t.tm_year + 1900)
      ++ (b'-'
          ∷ (num (t.tm_mon + 1)
              ++ (b'-'
                  ∷ (num t.tm_mday
                      ++ (b' '
                          ∷ (weekday t.tm_wday
                              ++ (b' '
                                  ∷ (num t.tm_hour
                                      ++ (b':' ∷ (num t.tm_min ++ (b':' ∷ num t.tm_sec))))))))))))

  -- Through localtime(3) instead of localtime_r(3).
  pub time_local : Option Tm → Outcome (List ℕ)
  unfolding weekday
  time_local none = exited minus_one
  time_local (some t) = returned (
      num (t.tm_year + 1900)
      ++ (b'-'
          ∷ (num (t.tm_mon + 1)
              ++ (b'-'
                  ∷ (num t.tm_mday
                      ++ (b' '
                          ∷ (weekday t.tm_wday
                              ++ (b' '
                                  ∷ (num t.tm_hour
                                      ++ (b':' ∷ (num t.tm_min ++ (b':' ∷ num t.tm_sec))))))))))))
