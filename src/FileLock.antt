-- ===== src/FileLock.antt =====
-- process_file_lock/file_lock.cpp: the requests for record locks, and the program that keeps a second
-- instance of itself from running (`test_file_lock_fcntl_04`). The locks are the kernel's: a list of
-- whole-file locks with the processes that hold them.
pub mod Single
mod Tests
use unix_ipc_note.Base.{
  ℕ, zero, suc, ◌+◌, ◌/◌, ◌%◌, Bool, true, false, ◌&&◌, ◌||◌, not, Option, none, some, List, [],
  ◌∷◌, ◌++◌, length, ℤ, pos, negsuc, minus_one, ltb, ◌==◌, if◌then◌else◌,
}
use unix_ipc_note.System.{
  Errno, eagain, Outcome, returned, exited, blocked, Nothing, Answer, done, failed,
}

pub data LockType : Type 0 where
  rdlck wrlck unlck : LockType

pub data LockCommand : Type 0 where
  setlk setlkw getlk : LockCommand

-- struct flock
pub record Flock : Type 0 where
  pub l_type : LockType
  pub l_whence : ℕ
  pub l_start : ℤ
  pub l_len : ℤ
  pub l_pid : ℕ

abbrev pub flock_of : LockType → ℕ → ℤ → ℤ → Flock
flock_of type whence offset len = record {
  l_type = type;
  l_whence = whence;
  l_start = offset;
  l_len = len;
  l_pid = 0;
}

-- fcntl(2) on a lock: what it does is the kernel's.
abbrev pub LockCall : Type 0
LockCall = LockCommand → Flock → Answer Flock

module _ (fcntl : LockCall) where
  -- 0, or -1
  pub lock_fcntl_reg : LockCommand → LockType → ℕ → ℤ → ℤ → ℤ
  lock_fcntl_reg cmd type whence offset len = elim (fcntl cmd (flock_of type whence offset len)) [
    | done f ↦ pos 0
    | failed e ↦ minus_one
  ]

  pub Lock_fcntl_reg : LockCommand → LockType → ℕ → ℤ → ℤ → Outcome Nothing
  unfolding lock_fcntl_reg
  Lock_fcntl_reg cmd type whence offset len = elim (lock_fcntl_reg cmd type whence offset len) [
    | pos n ↦ returned tt
    | negsuc n ↦ exited minus_one
  ]

  -- The process that has a lock in the way, 0 if there is none, or -1.
  pub lock_fcntl_test : LockType → ℕ → ℤ → ℤ → ℤ
  lock_fcntl_test type whence offset len = elim (fcntl getlk (flock_of type whence offset len)) [
    | failed e ↦ minus_one
    | done f ↦ elim f.l_type [ unlck ↦ pos 0 | rdlck ↦ pos f.l_pid | wrlck ↦ pos f.l_pid ]
  ]

  pub Lock_fcntl_test : LockType → ℕ → ℤ → ℤ → Outcome ℤ
  unfolding lock_fcntl_test
  Lock_fcntl_test type whence offset len = elim (lock_fcntl_test type whence offset len) [
    | pos n ↦ returned (pos n)
    | negsuc n ↦ exited minus_one
  ]

-- The decimal digits of a process number, as std::to_string writes them.
unfoldable pub to_string : ℕ → ℕ → List ℕ
to_string zero n = []
to_string (suc fuel) n =
    let high = to_string fuel (n / 10) in
    if ltb n 10 then (b'0' + n) ∷ [] else high ++ (b'0' + n % 10) ∷ []

-- The whole-file locks of /tmp/zcq.pid, each with its holder, and the bytes of the file.
pub record PidFile : Type 0 where
  pub holders : List (ℕ × LockType)
  pub contents : List ℕ

abbrev pub in_the_way : ℕ → LockType → ℕ × LockType → Bool
in_the_way pid rdlck (p, wrlck) = not (p == pid)
in_the_way pid rdlck (p, _) = false
in_the_way pid wrlck (p, unlck) = false
in_the_way pid wrlck (p, _) = not (p == pid)
in_the_way pid unlck (p, t) = false

abbrev pub any_in_the_way : ℕ → LockType → List (ℕ × LockType) → Bool
any_in_the_way pid t [] = false
any_in_the_way pid t (h ∷ hs) = in_the_way pid t h || any_in_the_way pid t hs

-- F_SETLK for a write lock of the whole file, by process `pid`.
pub set_write_lock : ℕ → PidFile → Answer PidFile
set_write_lock pid f =
    if any_in_the_way pid wrlck f.holders
    then failed eagain
    else done (record f { holders = (pid, wrlck) ∷ f.holders })

-- The file and its locks, and how the process that has come to them goes on.
pub record Claimed : Type 0 where
  pub file : PidFile
  pub fate : Outcome Nothing

-- The lambda of test_file_lock_fcntl_04, then to_string, ftruncate and Write. A process that is refused
-- exits; it has no lock on the file that its exit could release.
pub claim_file : ℕ → PidFile → Claimed
unfolding set_write_lock
claim_file pid f = elim (set_write_lock pid f) [
  | failed e ↦ record { file = f; fate = exited minus_one }
  | done g ↦ record { file = record g { contents = to_string 20 pid }; fate = returned tt }
]

-- test_file_lock_fcntl_04: the program, and the child that it forks, which tries the same while the
-- program sleeps. The result is what each of the two has come to, and the file behind both.
pub test_file_lock_fcntl_04 : ℕ → ℕ → PidFile → Claimed × Option Claimed
test_file_lock_fcntl_04 pid child f =
    let c = claim_file pid f in
    let d = claim_file child c.file in
    elim c.fate [ returned u ↦ (c, some d) | exited v ↦ (c, none) | blocked ↦ (c, none) ]

-- Further instances, one after the other, each with the file that the one before has left.
pub attempts : List ℕ → PidFile → PidFile
attempts [] f = f
attempts (q ∷ qs) f = attempts qs (claim_file q f).file
