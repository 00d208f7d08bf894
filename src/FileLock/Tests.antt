-- ===== src/FileLock/Tests.antt =====
-- A first instance with the number 42, and others.
use unix_ipc_note.Base.{◌≡◌, refl, some, [], ◌∷◌, minus_one, arith}
use unix_ipc_note.System.{returned, exited}
use unix_ipc_note.FileLock.{
  wrlck, PidFile, claim_file, to_string, set_write_lock, test_file_lock_fcntl_04, attempts,
}
use unix_ipc_note.FileLock.Single.{single_instance}

abbrev fresh : PidFile
fresh = record { holders = []; contents = b'7' ∷ [] }

abbrev claimed : PidFile
claimed = record { holders = (42, wrlck) ∷ []; contents = b'4' ∷ b'2' ∷ [] }

claimed-claim_file : claim_file 42 fresh ≡ record { file = claimed; fate = returned tt }
unfolding claim_file set_write_lock to_string
claimed-claim_file = refl

single_instance_example :
    (claimed.contents ≡ to_string 20 42)
    × (claim_file 43 claimed ≡ record { file = claimed; fate = exited minus_one })
    × (attempts (50 ∷ 51 ∷ []) claimed ≡ claimed)
    × ((test_file_lock_fcntl_04 42 43 fresh).1
        ≡ some (record { file = claimed; fate = exited minus_one }))
unfolding claim_file set_write_lock to_string
single_instance_example =
    single_instance 42 43 (50 ∷ 51 ∷ []) fresh refl (omega arith) (omega arith, (omega arith, tt))
