-- ===== src/FileLock/Single.antt =====
-- One instance at a time.
use unix_ipc_note.Base.{
  ℕ, ◌≡◌, ◌≢◌, refl, some, List, [], ◌∷◌, minus_one, arith, Bool-cases, inl, inr,
}
use unix_ipc_note.System.{returned, exited}
use unix_ipc_note.FileLock.{
  LockType, wrlck, PidFile, any_in_the_way, set_write_lock, to_string, claim_file,
  test_file_lock_fcntl_04, attempts,
}

-- Process `p` has a write lock in the first place.
abbrev HeldBy : ℕ → PidFile → Type 0
HeldBy p f = (hs : List (ℕ × LockType)) × (f.holders ≡ (p, wrlck) ∷ hs)

claim-HeldBy :
    (p : ℕ) (f : PidFile)
    → (claim_file p f).fate ≡ returned tt
    → let g = (claim_file p f).file in HeldBy p g × (g.contents ≡ to_string 20 p)
unfolding claim_file set_write_lock
claim-HeldBy p f h = elim (Bool-cases (any_in_the_way p wrlck f.holders)) [
  | inl e ↦ ground arith
  | inr e ↦ ((f.holders, ground arith), ground arith)
]

refused :
    (p q : ℕ) (g : PidFile)
    → HeldBy p g
    → p ≢ q
    → claim_file q g ≡ record { file = g; fate = exited minus_one }
unfolding claim_file set_write_lock
refused p q g held other = let there = held.1 in ground (arith, there, other)

abbrev pub AllOther : ℕ → List ℕ → Type 0
AllOther p [] = Unit
AllOther p (q ∷ qs) = (p ≢ q) × AllOther p qs

unchanged : (p : ℕ) (qs : List ℕ) (g : PidFile) → HeldBy p g → AllOther p qs → attempts qs g ≡ g
unfolding attempts
unchanged p [] g held others = refl
unchanged p (q ∷ qs) g held others =
    let no_entry = refused p q g held others.0 in
    ground (arith, no_entry, unchanged p qs g held others.1)

-- Where a process has got the file, its number is the file's contents; every other process that tries
-- exits with -1 and leaves the file and its locks as they are, and so do any number of such attempts one
-- after the other. The child that the program forks is such a process, so that it never gets to write its
-- own number.
pub single_instance :
    (p q : ℕ) (qs : List ℕ) (f : PidFile)
    → (claim_file p f).fate ≡ returned tt
    → p ≢ q
    → AllOther p qs
    → let g = (claim_file p f).file in
      (g.contents ≡ to_string 20 p)
      × (claim_file q g ≡ record { file = g; fate = exited minus_one })
      × (attempts qs g ≡ g)
      × ((test_file_lock_fcntl_04 p q f).1 ≡ some (record { file = g; fate = exited minus_one }))
unfolding test_file_lock_fcntl_04
single_instance p q qs f h other others =
    let g = (claim_file p f).file in
    let (held, text) = claim-HeldBy p f h in
    let no_entry = refused p q g held other in
    (text, no_entry, unchanged p qs g held others, rw (h, test_file_lock_fcntl_04, no_entry) refl)
