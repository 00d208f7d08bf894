-- ===== src/Semaphores/Copying/Progress.antt =====
-- The two threads do not wait for each other.
use native.Mathlib.Decide.{dec_lt}
use unix_ipc_note.Base.{◌<◌, ◌≡◌, ◌⊎◌, inl, inr, refl, List, length, arith}
use unix_ipc_note.System.{ReadAnswer}
use unix_ipc_note.Semaphores.Copying.{Filler, Emptier, System, Step, Reach}
use unix_ipc_note.Semaphores.Copying.Invariant.{Inv}
use unix_ipc_note.Semaphores.Copying.Chunks.{Reach-Inv, over-last}

-- Both have left their loops, or the producer is before Read, or a step is possible.
abbrev pub Ready : System → Type 0
Ready s =
    ((s.filler ≡ Filler.over) × (s.emptier ≡ Emptier.over))
    ⊎ ((s.filler ≡ Filler.reading) ⊎ ((t : System) × Step s t))

step : {s t : System} → Step s t → Ready s
step st = inr (inr (_, st))

-- All ten slots are filled.
full-Ready :
    (s : System) (p : Emptier)
    → s.emptier ≡ p
    → s.filler ≡ Filler.waiting
    → ¬ 0 < s.empty_num
    → Inv s
    → Ready s
full-Ready s Emptier.waiting e f none inv =
    step (Step.wait_stored e (ground (arith, none, inv.empties, inv.stores)))
full-Ready s Emptier.looking e f none inv = step (Step.look e)
full-Ready s Emptier.posting e f none inv = step (Step.post_empty e)
full-Ready s Emptier.over e f none inv = absurd (ground (arith, none, inv.empties, over-last inv e))

-- The producer has left its loop.
over-Ready : (s : System) (p : Emptier) → s.emptier ≡ p → s.filler ≡ Filler.over → Inv s → Ready s
over-Ready s Emptier.waiting e f inv =
    let left : length s.out < length s.readings = ground (arith, inv.stopped_left) in
    step (Step.wait_stored e (ground (arith, left, inv.stores)))
over-Ready s Emptier.looking e f inv = step (Step.look e)
over-Ready s Emptier.posting e f inv = step (Step.post_empty e)
over-Ready s Emptier.over e f inv = inl (f, e)

any-Ready : (s : System) (p : Filler) → s.filler ≡ p → Inv s → Ready s
any-Ready s Filler.waiting e inv = elim (dec_lt 0 s.empty_num) [
  | yes l ↦ step (Step.wait_empty e l)
  | no l ↦ full-Ready s s.emptier refl e l inv
]
any-Ready s Filler.reading e inv = inr (inl e)
any-Ready s Filler.checking e inv = step (Step.test e)
any-Ready s Filler.posting e inv = step (Step.post_stored e)
any-Ready s Filler.last_posting e inv = step (Step.post_last e)
any-Ready s Filler.over e inv = over-Ready s s.emptier refl e inv

-- In every state that the threads reach, both have left their loops, or the producer is before Read, or a
-- step of one of them is possible: a full ring and an empty one do not stop both, and the end of the file
-- reaches the consumer.
pub copy_goes_on : {es : List ReadAnswer} {s : System} → Reach es s → Ready s
copy_goes_on {es} {s} r = any-Ready s s.filler refl (Reach-Inv r)
