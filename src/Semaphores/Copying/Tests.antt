-- ===== src/Semaphores/Copying/Tests.antt =====
-- A run that copies one chunk of a file, and the theorems there.
use mathlib.Core.List.{map}
use unix_ipc_note.Base.{
  ℕ, ◌+◌, ◌≤◌, ◌≡◌, ◌≢◌, ◌⊎◌, refl, ◌∙◌, true, replicate, ℕ_discrete, List, [], ◌∷◌, ◌++◌, length,
  take, pos, int_eq, arith,
}
use unix_ipc_note.System.{returned, ReadAnswer, got, read_failed, eintr}
use unix_ipc_note.UnixIo.{Read, overlay}
use unix_ipc_note.UnixIo.ReadLaws.{Read-interrupted, Read_bytes}
use unix_ipc_note.Broadcast.{maxline}
use unix_ipc_note.Semaphores.{buff_len}
use unix_ipc_note.Semaphores.Copying.{Slot, Emptier, System, Step, Reach, here, next}
use unix_ipc_note.Semaphores.Copying.Chunks.{Drawn, chunks_copied}
use unix_ipc_note.Semaphores.Copying.Progress.{Ready, copy_goes_on}

-- Read is interrupted once, then finds two bytes and then the end of the file.
abbrev answers : List ReadAnswer
answers = read_failed eintr ∷ got (b'h' ∷ b'i' ∷ []) ∷ got [] ∷ []

abbrev text : List ℕ
text = b'h' ∷ b'i' ∷ []

first_read :
    Read maxline 0 answers
    ≡ returned
        (record { value = pos 2; buffer = overlay text (replicate maxline 0); rest = got [] ∷ [] })
first_read =
    Read-interrupted maxline 0 1 (got text ∷ got [] ∷ [])
    ∙ Read_bytes maxline b'h' (b'i' ∷ []) (got [] ∷ [])

-- The chunk is read and posted, and the consumer has logged it.
abbrev copied-Reach : (s : System) × Reach answers s
unfolding ℕ_discrete
copied-Reach =
    let taken = next here (Step.wait_empty refl (omega arith)) in
    let filled = next taken (Step.read refl first_read) in
    let tested = next filled (Step.test refl) in
    let posted = next tested (Step.post_stored refl) in
    let found = next posted (Step.wait_stored refl (omega arith)) in
    (_, next found (Step.look refl))

chunks_copied_example :
    let s = copied-Reach.0 in
    Drawn answers s.readings s.answers
    × (s.out ≡ take (length s.out) s.readings)
    × (length s.readings ≤ length s.out + buff_len)
    × ((s.emptier ≢ Emptier.over)
        ⊎ ((last : Slot) × (s.readings ≡ s.out ++ last ∷ []) × (int_eq last.n (pos 0) ≡ true)))
chunks_copied_example = chunks_copied (copied-Reach.1)

copy_goes_on_example : Ready (copied-Reach.0)
copy_goes_on_example = copy_goes_on (copied-Reach.1)

one_logged : map (λ slot. slot.n) (copied-Reach.0.out) ≡ pos 2 ∷ []
unfolding ℕ_discrete
one_logged = refl
