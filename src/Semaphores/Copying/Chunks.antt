-- ===== src/Semaphores/Copying/Chunks.antt =====
-- Chunk after chunk, the consumer logs what Read has returned.
use native.Mathlib.Decide.{dec_lt}
use mathlib.Core.Path.{subst}
use unix_ipc_note.Base.{
  ◌⊎◌, ℕ, zero, suc, ◌+◌, ◌<◌, ◌≤◌, ◌≡◌, ◌≢◌, refl, ap, sym, ◌∙◌, true, false, inl, inr, List, [],
  ◌∷◌, ◌++◌, length, take, pos, int_eq, arith,
}
use unix_ipc_note.System.{returned, ReadAnswer}
use unix_ipc_note.UnixIo.{Reading, Read}
use unix_ipc_note.UnixIo.ReadLaws.{HasCount, Read-HasCount}
use unix_ipc_note.Broadcast.{maxline}
use unix_ipc_note.Semaphores.{buff_len}
use unix_ipc_note.Semaphores.Copying.{
  Slot, end_of_file, Emptier, System, slot_of, check, look_at, Step, Reach, here, next,
}
use unix_ipc_note.Semaphores.Copying.Invariant.{
  take-next, ending, blank, result, Inv, start-Inv, wait_empty-Inv, wait_stored-Inv,
  post_stored-Inv, post_last-Inv, post_empty-Inv,
}
use unix_ipc_note.Semaphores.Copying.FillSteps.{read-Inv, check-Inv}
use unix_ipc_note.Semaphores.Copying.LogSteps.{look-Inv}

-- Read does not return the mark of the end.
Read-no_mark :
    (es : List ReadAnswer) {r : Reading}
    → Read maxline 0 es ≡ returned r
    → int_eq r.value end_of_file ≡ false
unfolding HasCount
Read-no_mark es {r} e = elim (subst HasCount e (Read-HasCount maxline 0 es)) [
  | inl (n, v) ↦ rw v refl
  | inr v ↦ rw v refl
]

Step-Inv : {s t : System} → Step s t → Inv s → Inv t
Step-Inv (Step.wait_empty e l) inv = wait_empty-Inv e l inv
Step-Inv {s} (Step.read {r} e a) inv = read-Inv r e (Read-no_mark s.answers a) inv
Step-Inv (Step.test e) inv = check-Inv e inv
Step-Inv (Step.post_stored e) inv = post_stored-Inv e inv
Step-Inv (Step.post_last e) inv = post_last-Inv e inv
Step-Inv (Step.wait_stored e l) inv = wait_stored-Inv e l inv
Step-Inv (Step.look e) inv = look-Inv e inv
Step-Inv (Step.post_empty e) inv = post_empty-Inv e inv

pub Reach-Inv : {es : List ReadAnswer} {s : System} → Reach es s → Inv s
Reach-Inv {es} here = start-Inv es
Reach-Inv (next r st) = Step-Inv st (Reach-Inv r)

-- `readings` are what Read returns on the answers, one call after the other, until `rest` is left.
unfoldable pub Drawn : List ReadAnswer → List Slot → List ReadAnswer → Type 0
Drawn es [] rest = es ≡ rest
Drawn es (x ∷ xs) rest =
    (r : Reading) × (Read maxline 0 es ≡ returned r) × (slot_of r ≡ x) × Drawn r.rest xs rest

Drawn-next :
    (es : List ReadAnswer) (xs : List Slot) (rest : List ReadAnswer) (r : Reading)
    → Drawn es xs rest
    → Read maxline 0 rest ≡ returned r
    → Drawn es (xs ++ slot_of r ∷ []) r.rest
unfolding Drawn
Drawn-next es [] rest r d e = (r, rw d e, refl, refl)
Drawn-next es (x ∷ xs) rest r (q, a, b, more) e = (q, a, b, Drawn-next q.rest xs rest r more e)

check-kept : (s : System) → ((check s).readings ≡ s.readings) × ((check s).answers ≡ s.answers)
check-kept s = ground arith

look_at-kept :
    (s : System) → ((look_at s).readings ≡ s.readings) × ((look_at s).answers ≡ s.answers)
look_at-kept s = ground arith

Reach-Drawn : {es : List ReadAnswer} {s : System} → Reach es s → Drawn es s.readings s.answers
unfolding Drawn
Reach-Drawn here = refl
Reach-Drawn (next run (Step.wait_empty e l)) = Reach-Drawn run
Reach-Drawn {es} (next {s} run (Step.read {r} e a)) =
    Drawn-next es s.readings s.answers r (Reach-Drawn run) a
Reach-Drawn (next {s} run (Step.test e)) = let k = check-kept s in rw (k.0, k.1) (Reach-Drawn run)
Reach-Drawn (next run (Step.post_stored e)) = Reach-Drawn run
Reach-Drawn (next run (Step.post_last e)) = Reach-Drawn run
Reach-Drawn (next run (Step.wait_stored e l)) = Reach-Drawn run
Reach-Drawn (next {s} run (Step.look e)) = let k = look_at-kept s in rw (k.0, k.1) (Reach-Drawn run)
Reach-Drawn (next run (Step.post_empty e)) = Reach-Drawn run

take-whole : (xs : List Slot) (k : ℕ) → k ≡ length xs → take k xs ≡ xs
take-whole [] zero h = refl
take-whole [] (suc k) h = refl
take-whole (x ∷ xs) zero h = absurd (omega arith)
take-whole (x ∷ xs) (suc k) h = ap (λ l. x ∷ l) (take-whole xs k (omega arith))

-- The consumer leaves its loop at the last result.
pub over-last :
    {s : System} → Inv s → s.emptier ≡ Emptier.over → length s.out + 1 ≡ length s.readings
over-last {s} inv e =
    let some : length s.out < length s.readings = ground (arith, inv.stores) in
    elim (dec_lt (length s.out + ending s.filler) (length s.readings)) [
      | yes h ↦ absurd (grind (arith, inv.no_end (length s.out) h, inv.all_logged e))
      | no h ↦ ground (arith, some, h)
    ]

-- When the consumer has left its loop, all results but the last are logged.
over-All :
    {s : System}
    → Inv s
    → s.emptier ≡ Emptier.over
    → s.readings ≡ s.out ++ result s (length s.out) ∷ []
over-All {s} inv e =
    let some : length s.out < length s.readings = ground (arith, inv.stores) in
    let last = over-last inv e in
    sym (take-whole s.readings (length s.out + 1) last)
    ∙ take-next blank blank s.readings (length s.out) some
    ∙ ap (λ l. l ++ result s (length s.out) ∷ []) (sym inv.logged)

-- However the two threads interleave, `readings` are what Read returns on the kernel's answers, one call
-- after the other; the consumer has logged the first of them, in order and unchanged, and is at most ten
-- behind; and once it has left its loop it has logged all but the last, which is a 0, the end of the file.
pub chunks_copied :
    {es : List ReadAnswer} {s : System}
    → Reach es s
    → Drawn es s.readings s.answers
      × (s.out ≡ take (length s.out) s.readings)
      × (length s.readings ≤ length s.out + buff_len)
      × ((s.emptier ≢ Emptier.over)
          ⊎ ((last : Slot) × (s.readings ≡ s.out ++ last ∷ []) × (int_eq last.n (pos 0) ≡ true)))
chunks_copied {es} {s} r =
    let inv = Reach-Inv r in
    (Reach-Drawn r, inv.logged, omega (arith, inv.empties), ended s.emptier refl inv)
  where
    ended :
        (p : Emptier)
        → s.emptier ≡ p
        → Inv s
        → (s.emptier ≢ Emptier.over)
          ⊎ ((last : Slot) × (s.readings ≡ s.out ++ last ∷ []) × (int_eq last.n (pos 0) ≡ true))
    ended Emptier.over e inv = inr (_, over-All inv e, inv.all_logged e)
    ended Emptier.waiting e inv = inl (λ h. absurd (ground (arith, h)))
    ended Emptier.looking e inv = inl (λ h. absurd (ground (arith, h)))
    ended Emptier.posting e inv = inl (λ h. absurd (ground (arith, h)))
