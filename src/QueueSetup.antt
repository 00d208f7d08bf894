-- ===== src/QueueSetup.antt =====
-- Posix_message_queue/mqueue_test.cpp, how a queue is opened: `mq_create`, which takes its options from
-- std::cin, and `test_mq_create`, which takes them from getopt(3); and the single exchange of
-- `test_mq_service`.
pub mod Unseen
pub mod Agreement
pub mod Exchange
mod Tests
use mathlib.Core.Option
use unix_ipc_note.Base.{
  ℕ, zero, suc, Bool, true, false, ◌&&◌, ◌||◌, not, Option, none, some, List, [], ◌∷◌, ◌++◌, length,
  replicate, ℤ, pos, negsuc, minus_one, is_neg, int_eq, ltb, ◌==◌, if◌then◌else◌,
}
use unix_ipc_note.System.{Outcome, returned, exited, blocked, Answer, done, failed}
use unix_ipc_note.Words.{strtovec, list_eq, c_string}
use unix_ipc_note.Words.Numbers.{is_space, skip_space, strtol}
use unix_ipc_note.Wrappers.{Receipt, Mq_receive}

-- The two members of struct mq_attr that mq_open(3) reads.
pub record Attr : Type 0 where
  pub mq_maxmsg : ℤ
  pub mq_msgsize : ℤ

-- Whether O_EXCL is added to O_RDWR | O_CREAT, and the attributes so far.
pub record Options : Type 0 where
  pub excl : Bool
  pub attr : Attr

abbrev pub no_options : Options
no_options = record { excl = false; attr = record { mq_maxmsg = pos 0; mq_msgsize = pos 0 } }

-- The arguments that Mq_open is called with.
pub record Opening : Type 0 where
  pub name : List ℕ
  pub excl : Bool
  pub attr : Option Attr

-- std::cin >> word: white space is stepped over, and the word ends before the next.
pub until_space : List ℕ → List ℕ
until_space [] = []
until_space (c ∷ cs) = if is_space c then [] else c ∷ until_space cs

abbrev pub cin_word : List ℕ → List ℕ
cin_word input = until_space (skip_space input)

-- strtol(word.c_str(), nullptr, 10)
abbrev pub number_of : List ℕ → ℤ
number_of word = (strtol (c_string word)).0

abbrev pub opt_e : List ℕ
opt_e = b'-' ∷ b'e' ∷ []

abbrev pub opt_m : List ℕ
opt_m = b'-' ∷ b'm' ∷ []

abbrev pub opt_z : List ℕ
opt_z = b'-' ∷ b'z' ∷ []

abbrev pub set_maxmsg : List ℕ → Options → Options
set_maxmsg v o = record o { attr = record o.attr { mq_maxmsg = number_of v } }

abbrev pub set_msgsize : List ℕ → Options → Options
set_msgsize v o = record o { attr = record o.attr { mq_msgsize = number_of v } }

-- The loop over all words but the last; the value of -m and -z is the next word, the last included.
pub option_loop : List (List ℕ) → Options → Options
option_loop [] o = o
option_loop (w ∷ []) o = o
option_loop (w ∷ v ∷ ws) o =
    let with_e = option_loop (v ∷ ws) (record o { excl = true }) in
    let with_m = option_loop ws (set_maxmsg v o) in
    let with_z = option_loop ws (set_msgsize v o) in
    let other = option_loop (v ∷ ws) o in
    if list_eq w opt_e
    then with_e
    else if list_eq w opt_m
    then with_m
    else if list_eq w opt_z
    then with_z
    else other

abbrev pub positive : ℤ → Bool
positive (pos n) = ltb 0 n
positive (negsuc n) = false

abbrev pub is_zero : ℤ → Bool
is_zero n = int_eq n (pos 0)

-- The test of mq_create for one of the two attributes without the other.
abbrev pub is_half : Attr → Bool
is_half a =
    (positive a.mq_maxmsg && is_zero a.mq_msgsize)
    || ((is_zero a.mq_maxmsg && positive a.mq_msgsize)
        || (is_neg a.mq_maxmsg || is_neg a.mq_msgsize))

abbrev pub attr_if : Bool → Attr → Option Attr
attr_if true a = some a
attr_if false a = none

-- bufvec.back()
pub last_word : List ℕ → List (List ℕ) → List ℕ
last_word w [] = w
last_word w (v ∷ ws) = last_word v ws

-- mq_create behind strtovec.
pub open_words : List (List ℕ) → Outcome Opening
unfolding option_loop last_word
open_words [] = exited minus_one
open_words (w ∷ ws) =
    let o = option_loop (w ∷ ws) no_options in
    if is_half o.attr
    then exited minus_one
    else returned (record {
      name = last_word w ws;
      excl = o.excl;
      attr = attr_if (positive o.attr.mq_maxmsg) o.attr;
    })

-- mq_create, given what stands in std::cin.
pub mq_create : List ℕ → Outcome Opening
unfolding until_space open_words
mq_create input = elim (strtovec (cin_word input)) [
  | returned words ↦ open_words words
  | exited v ↦ exited v
  | blocked ↦ blocked
]

-- What getopt(3) gives: an option of "em:z:" with its argument, or '?'.
pub data Opt : Type 0 where
  exclusive : Opt
  maxmsg : List ℕ → Opt
  msgsize : List ℕ → Opt
  unknown : Opt

pub getopt_loop : List Opt → Options → Outcome Options
getopt_loop [] o = returned o
getopt_loop (exclusive ∷ opts) o = getopt_loop opts (record o { excl = true })
getopt_loop (maxmsg v ∷ opts) o = getopt_loop opts (set_maxmsg v o)
getopt_loop (msgsize v ∷ opts) o = getopt_loop opts (set_msgsize v o)
getopt_loop (unknown ∷ opts) o = exited minus_one

-- The test of test_mq_create, with != 0 for > 0.
abbrev pub is_uneven : Attr → Bool
is_uneven a =
    (not (is_zero a.mq_maxmsg) && is_zero a.mq_msgsize)
    || (is_zero a.mq_maxmsg && not (is_zero a.mq_msgsize))

-- if (optind != argc - 1) err_quit(…); then the test, and Mq_open.
abbrev pub open_operands : List (List ℕ) → Options → Outcome Opening
open_operands [] o = exited minus_one
open_operands (name ∷ []) o =
    if is_uneven o.attr
    then exited minus_one
    else returned (record {
      name = name;
      excl = o.excl;
      attr = attr_if (not (is_zero o.attr.mq_maxmsg)) o.attr;
    })
open_operands (name ∷ other ∷ names) o = exited minus_one

-- test_mq_create, given the options and argv from optind on.
pub test_mq_create : List Opt → List (List ℕ) → Outcome Opening
unfolding getopt_loop
test_mq_create opts operands = elim (getopt_loop opts no_options) [
  | returned o ↦ open_operands operands o
  | exited v ↦ exited v
  | blocked ↦ blocked
]

-- test_mq_service and the second half of test_mq_client: the bytes that go back are strlen(mq_buf), `none`
-- being a read behind the end of the buffer.
pub terminated : List ℕ → Option (List ℕ)
terminated [] = none
terminated (c ∷ cs) = if c == 0 then some [] else Option.map (λ t. c ∷ t) (terminated cs)

pub test_mq_service : ℕ → Answer (List ℕ) → Outcome (Option (List ℕ))
unfolding terminated
test_mq_service size a = elim (Mq_receive size 1 a) [
  | returned r ↦ returned (terminated r.buffer)
  | exited v ↦ exited v
  | blocked ↦ blocked
]
