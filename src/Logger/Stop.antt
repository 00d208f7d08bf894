-- ===== src/Logger/Stop.antt =====
-- The destructor's join ends.
use unix_ipc_note.Base.{
  ◌+◌, ◌*◌, ◌<◌, length, ℕ, ◌≡◌, refl, ap, ◌∙◌, ◌⊎◌, inl, inr, true, false, List, [], ◌∷◌, arith,
}
use unix_ipc_note.Logger.{
  Owner, nobody, Call, outside, Write, looking, Destroy, joining, gone, Logger, LogStep, WriteStep,
  DestroyStep, Step, log, process, end, Reach, here, next,
}
use unix_ipc_note.Logger.Invariant.{call_holds, write_holds, destroy_holds, Inv, wake-holds}
use unix_ipc_note.Logger.Entries.{Reach-Inv}

-- The mutex is held by one who is between its lock and its release.
abbrev Held : Owner → (ℕ → Call) → Write → Destroy → Type 0
Held Owner.nobody calls w d = Unit
Held (Owner.caller i) calls w d = call_holds (calls i) ≡ true
Held Owner.writer calls w d = write_holds w ≡ true
Held Owner.destructor calls w d = destroy_holds d ≡ true

abbrev SystemHeld : Logger → Type 0
SystemHeld s = Held s.owner s.calls s.write s.destroy

log-Held : (i : ℕ) {s t : Logger} → LogStep i s t → Inv s → SystemHeld s → SystemHeld t
log-Held i {s} (LogStep.call e d c) inv held = ground (arith, inv.own_call i)
log-Held i {s} (LogStep.lock c o) inv held = ground arith
log-Held i {s} (LogStep.push c) inv held = ground (arith, inv.own_call i)
log-Held i {s} (LogStep.notify c) inv held = ground (arith, wake-holds s.write, inv.own_call i)
log-Held i {s} (LogStep.unlock c) inv held = ground (arith, inv.own_call i)

write-Held : {s t : Logger} → WriteStep s t → Inv s → SystemHeld s → SystemHeld t
write-Held (WriteStep.open_fails w) inv held = ground (arith, inv.own_write)
write-Held (WriteStep.opened w) inv held = ground (arith, inv.own_write)
write-Held (WriteStep.enter w o) inv held = ground (arith, inv.own_write)
write-Held (WriteStep.wait w x) inv held = ground (arith, inv.own_write)
write-Held (WriteStep.go w x) inv held = ground (arith, inv.own_write)
write-Held (WriteStep.rouse w) inv held = ground (arith, inv.own_write)
write-Held (WriteStep.wake_up w o) inv held = ground (arith, inv.own_write)
write-Held (WriteStep.release w) inv held = ground (arith, inv.own_write)
write-Held (WriteStep.relock w o) inv held = ground (arith, inv.own_write)
write-Held (WriteStep.none_left w q) inv held = ground (arith, inv.own_write)
write-Held (WriteStep.take w q) inv held = ground (arith, inv.own_write)
write-Held (WriteStep.unlock w) inv held = ground (arith, inv.own_write)
write-Held (WriteStep.again w x) inv held = ground (arith, inv.own_write)
write-Held (WriteStep.finish w x) inv held = ground (arith, inv.own_write)

destroy-Held : {s t : Logger} → DestroyStep s t → Inv s → SystemHeld s → SystemHeld t
destroy-Held {s} (DestroyStep.destroy d out) inv held =
    ground (arith, wake-holds s.write, inv.own_destroy)
destroy-Held {s} (DestroyStep.lock d o) inv held =
    ground (arith, wake-holds s.write, inv.own_destroy)
destroy-Held {s} (DestroyStep.set d) inv held = ground (arith, wake-holds s.write, inv.own_destroy)
destroy-Held {s} (DestroyStep.notify d) inv held =
    ground (arith, wake-holds s.write, inv.own_destroy)
destroy-Held {s} (DestroyStep.unlock d) inv held =
    ground (arith, wake-holds s.write, inv.own_destroy)
destroy-Held {s} (DestroyStep.join_finished d w) inv held =
    ground (arith, wake-holds s.write, inv.own_destroy)
destroy-Held {s} (DestroyStep.join_gave_up d w) inv held =
    ground (arith, wake-holds s.write, inv.own_destroy)

Reach-Held : {s : Logger} → Reach s → SystemHeld s
Reach-Held here = tt
Reach-Held (next r (log i st)) = log-Held i st (Reach-Inv r) (Reach-Held r)
Reach-Held (next r (process st)) = write-Held st (Reach-Inv r) (Reach-Held r)
Reach-Held (next r (end st)) = destroy-Held st (Reach-Inv r) (Reach-Held r)

-- How many steps the writer's place is from the end, with mExit set and an empty queue.
abbrev pub steps_from : Write → ℕ
steps_from Write.opening = 7
steps_from Write.entering = 6
steps_from Write.testing = 5
steps_from Write.sleeping = 6
steps_from Write.woken = 5
steps_from Write.releasing = 4
steps_from Write.relocking = 3
steps_from Write.looking = 2
steps_from Write.unlocking = 4
steps_from Write.deciding = 1
steps_from Write.finished = 0
steps_from Write.gave_up = 0

-- How much the writer has yet to do once mExit is set.
abbrev pub work : Logger → ℕ
work s = steps_from s.write + 3 * length s.queue

write-less : {s t : Logger} → WriteStep s t → Inv s → s.exit ≡ true → work t < work s
write-less (WriteStep.open_fails w) inv e = ground arith
write-less (WriteStep.opened w) inv e = ground arith
write-less (WriteStep.enter w o) inv e = ground arith
write-less (WriteStep.wait w x) inv e = ground arith
write-less (WriteStep.go w x) inv e = ground arith
write-less (WriteStep.rouse w) inv e = ground arith
write-less (WriteStep.wake_up w o) inv e = ground arith
write-less (WriteStep.release w) inv e = ground arith
write-less (WriteStep.relock w o) inv e = ground arith
write-less (WriteStep.none_left w q) inv e = ground arith
write-less (WriteStep.take w q) inv e = ground (arith, ap length q)
write-less (WriteStep.unlock w) inv e = ground arith
write-less (WriteStep.again w x) inv e = ground arith
write-less (WriteStep.finish w x) inv e = ground arith

write-destroy : {s t : Logger} → WriteStep s t → t.destroy ≡ s.destroy
write-destroy (WriteStep.open_fails w) = refl
write-destroy (WriteStep.opened w) = refl
write-destroy (WriteStep.enter w o) = refl
write-destroy (WriteStep.wait w x) = refl
write-destroy (WriteStep.go w x) = refl
write-destroy (WriteStep.rouse w) = refl
write-destroy (WriteStep.wake_up w o) = refl
write-destroy (WriteStep.release w) = refl
write-destroy (WriteStep.relock w o) = refl
write-destroy (WriteStep.none_left w q) = refl
write-destroy (WriteStep.take w q) = refl
write-destroy (WriteStep.unlock w) = refl
write-destroy (WriteStep.again w x) = refl
write-destroy (WriteStep.finish w x) = refl

module _ {s : Logger} (inv : Inv s) (held : SystemHeld s) (d : s.destroy ≡ joining) where
  all_outside : (i : ℕ) → s.calls i ≡ outside
  all_outside i = elim inv.quiet [ inl e ↦ absurd (cc) | inr all ↦ all i ]

  exit_set : s.exit ≡ true
  exit_set = ground (arith, inv.destroy_fits)

  free : (o : Owner) → s.owner ≡ o → write_holds s.write ≡ false → s.owner ≡ nobody
  free Owner.nobody e h = e
  free (Owner.caller i) e h = ground (arith, all_outside i)
  free Owner.writer e h = ground arith
  free Owner.destructor e h = ground arith

  look_ready : (q : List ℕ) → s.queue ≡ q → s.write ≡ looking → (t : Logger) × Step s t
  look_ready [] q w = (_, process (WriteStep.none_left w q))
  look_ready (x ∷ xs) q w = (_, process (WriteStep.take w q))

  -- The writer can go on, or the join can return.
  write_ready : (w : Write) → s.write ≡ w → (t : Logger) × Step s t
  write_ready Write.opening e = (_, process (WriteStep.opened e))
  write_ready Write.entering e = (_, process (WriteStep.enter e (free s.owner refl (ground arith))))
  write_ready Write.testing e = (_, process (WriteStep.go e exit_set))
  write_ready Write.sleeping e = absurd (ground (arith, inv.destroy_fits))
  write_ready Write.woken e = (_, process (WriteStep.wake_up e (free s.owner refl (ground arith))))
  write_ready Write.releasing e = (_, process (WriteStep.release e))
  write_ready Write.relocking e =
      (_, process (WriteStep.relock e (free s.owner refl (ground arith))))
  write_ready Write.looking e = look_ready s.queue refl e
  write_ready Write.unlocking e = (_, process (WriteStep.unlock e))
  write_ready Write.deciding e = (_, process (WriteStep.finish e exit_set))
  write_ready Write.finished e = (_, end (DestroyStep.join_finished d e))
  write_ready Write.gave_up e = (_, end (DestroyStep.join_gave_up d e))

  no_log : (i : ℕ) {t : Logger} → LogStep i s t → ⊥
  no_log i (LogStep.call e a c) = ground (arith, all_outside i)
  no_log i (LogStep.lock c o) = ground (arith, all_outside i)
  no_log i (LogStep.push c) = ground (arith, all_outside i)
  no_log i (LogStep.notify c) = ground (arith, all_outside i)
  no_log i (LogStep.unlock c) = ground (arith, all_outside i)

destroy-gone : {s t : Logger} → DestroyStep s t → s.destroy ≡ joining → t.destroy ≡ gone
destroy-gone (DestroyStep.destroy e out) d = absurd (cc)
destroy-gone (DestroyStep.lock e o) d = absurd (cc)
destroy-gone (DestroyStep.set e) d = absurd (cc)
destroy-gone (DestroyStep.notify e) d = absurd (cc)
destroy-gone (DestroyStep.unlock e) d = absurd (cc)
destroy-gone (DestroyStep.join_finished e w) d = refl
destroy-gone (DestroyStep.join_gave_up e w) d = refl

Step-nearer :
    {s t : Logger}
    → Inv s
    → SystemHeld s
    → s.destroy ≡ joining
    → Step s t
    → (t.destroy ≡ gone) ⊎ ((t.destroy ≡ joining) × (work t < work s))
Step-nearer inv held d (log i st) = absurd (no_log inv held d i st)
Step-nearer inv held d (process st) =
    inr (write-destroy st ∙ d, write-less st inv (exit_set inv held d))
Step-nearer inv held d (end st) = inl (destroy-gone st d)

-- While the destructor waits for its thread, some step is always possible, and each step either
-- ends the wait or leaves strictly less work for the writer, so that no run goes on for ever without the end of the wait.
pub join_ends :
    {s : Logger}
    → Reach s
    → s.destroy ≡ joining
    → ((t : Logger) × Step s t)
      × ((t : Logger) → Step s t → (t.destroy ≡ gone) ⊎ ((t.destroy ≡ joining) × (work t < work s)))
join_ends {s} r d =
    let inv = Reach-Inv r in
    (write_ready inv (Reach-Held r) d s.write refl, λ t st. Step-nearer inv (Reach-Held r) d st)
