-- ===== src/Logger/DestroySteps.antt =====
-- The steps of the destructor keep the invariant.
use unix_ipc_note.Base.{ℕ, ◌≡◌, ◌≢◌, sym, ◌∙◌, ◌⊎◌, inl, inr, true, ◌++◌, arith}
use unix_ipc_note.Logger.{
  caller, writer, destructor, outside, Write, sleeping, alive, Logger, wake, DestroyStep,
}
use unix_ipc_note.Logger.Invariant.{
  call_holds, write_holds, destroy_holds, WriteFits, DestroyFits, Inv, wake-holds, wake-fits,
}

destroy-own_call :
    {s t : Logger}
    → DestroyStep s t
    → Inv s
    → (j : ℕ) → call_holds (t.calls j) ≡ true
    → t.owner ≡ caller j
destroy-own_call (DestroyStep.destroy d out) inv j h =
    ground (arith, inv.own_call j, inv.own_destroy)
destroy-own_call (DestroyStep.lock d o) inv j h = ground (arith, inv.own_call j, inv.own_destroy)
destroy-own_call (DestroyStep.set d) inv j h = ground (arith, inv.own_call j, inv.own_destroy)
destroy-own_call (DestroyStep.notify d) inv j h = ground (arith, inv.own_call j, inv.own_destroy)
destroy-own_call (DestroyStep.unlock d) inv j h = ground (arith, inv.own_call j, inv.own_destroy)
destroy-own_call (DestroyStep.join_finished d w) inv j h =
    ground (arith, inv.own_call j, inv.own_destroy)
destroy-own_call (DestroyStep.join_gave_up d w) inv j h =
    ground (arith, inv.own_call j, inv.own_destroy)

destroy-own_write :
    {s t : Logger} → DestroyStep s t → Inv s → write_holds t.write ≡ true → t.owner ≡ writer
destroy-own_write (DestroyStep.destroy d out) inv h = ground (arith, inv.own_write, inv.own_destroy)
destroy-own_write (DestroyStep.lock d o) inv h = ground (arith, inv.own_write, inv.own_destroy)
destroy-own_write (DestroyStep.set d) inv h = ground (arith, inv.own_write, inv.own_destroy)
destroy-own_write {s} (DestroyStep.notify d) inv h = inv.own_write (sym (wake-holds s.write) ∙ h)
destroy-own_write (DestroyStep.unlock d) inv h = ground (arith, inv.own_write, inv.own_destroy)
destroy-own_write (DestroyStep.join_finished d w) inv h =
    ground (arith, inv.own_write, inv.own_destroy)
destroy-own_write (DestroyStep.join_gave_up d w) inv h =
    ground (arith, inv.own_write, inv.own_destroy)

destroy-own_destroy :
    {s t : Logger} → DestroyStep s t → Inv s → destroy_holds t.destroy ≡ true → t.owner ≡ destructor
destroy-own_destroy (DestroyStep.destroy d out) inv h = ground (arith, inv.own_destroy)
destroy-own_destroy (DestroyStep.lock d o) inv h = ground (arith, inv.own_destroy)
destroy-own_destroy (DestroyStep.set d) inv h = ground (arith, inv.own_destroy)
destroy-own_destroy (DestroyStep.notify d) inv h = ground (arith, inv.own_destroy)
destroy-own_destroy (DestroyStep.unlock d) inv h = ground (arith, inv.own_destroy)
destroy-own_destroy (DestroyStep.join_finished d w) inv h = ground (arith, inv.own_destroy)
destroy-own_destroy (DestroyStep.join_gave_up d w) inv h = ground (arith, inv.own_destroy)

destroy-history : {s t : Logger} → DestroyStep s t → Inv s → t.written ++ t.queue ≡ t.logged
destroy-history (DestroyStep.destroy d out) inv = inv.history
destroy-history (DestroyStep.lock d o) inv = inv.history
destroy-history (DestroyStep.set d) inv = inv.history
destroy-history (DestroyStep.notify d) inv = inv.history
destroy-history (DestroyStep.unlock d) inv = inv.history
destroy-history (DestroyStep.join_finished d w) inv = inv.history
destroy-history (DestroyStep.join_gave_up d w) inv = inv.history

destroy-quiet :
    {s t : Logger} → DestroyStep s t → Inv s → (t.destroy ≡ alive) ⊎ ((i : ℕ) → t.calls i ≡ outside)
destroy-quiet (DestroyStep.destroy d out) inv = inr out
destroy-quiet (DestroyStep.lock d o) inv = elim inv.quiet [
  | inl e ↦ absurd (cc)
  | inr all ↦ inr all
]
destroy-quiet (DestroyStep.set d) inv = elim inv.quiet [ inl e ↦ absurd (cc) | inr all ↦ inr all ]
destroy-quiet (DestroyStep.notify d) inv = elim inv.quiet [
  | inl e ↦ absurd (cc)
  | inr all ↦ inr all
]
destroy-quiet (DestroyStep.unlock d) inv = elim inv.quiet [
  | inl e ↦ absurd (cc)
  | inr all ↦ inr all
]
destroy-quiet (DestroyStep.join_finished d w) inv = elim inv.quiet [
  | inl e ↦ absurd (cc)
  | inr all ↦ inr all
]
destroy-quiet (DestroyStep.join_gave_up d w) inv = elim inv.quiet [
  | inl e ↦ absurd (cc)
  | inr all ↦ inr all
]

destroy-WriteFits : {s t : Logger} → DestroyStep s t → Inv s → WriteFits t.write t.queue t.exit
destroy-WriteFits (DestroyStep.destroy d out) inv = inv.write_fits
destroy-WriteFits (DestroyStep.lock d o) inv = inv.write_fits
destroy-WriteFits (DestroyStep.set d) inv = ground (arith, inv.write_fits)
destroy-WriteFits {s} (DestroyStep.notify d) inv = wake-fits s.write s.queue s.exit inv.write_fits
destroy-WriteFits (DestroyStep.unlock d) inv = inv.write_fits
destroy-WriteFits (DestroyStep.join_finished d w) inv = inv.write_fits
destroy-WriteFits (DestroyStep.join_gave_up d w) inv = inv.write_fits

wake-awake : (w : Write) → wake w ≢ sleeping
wake-awake Write.sleeping = λ e. cc
wake-awake w = λ e. cc

destroy-DestroyFits :
    {s t : Logger} → DestroyStep s t → Inv s → DestroyFits t.destroy t.exit t.write
destroy-DestroyFits (DestroyStep.destroy d out) inv = ground (arith, inv.destroy_fits)
destroy-DestroyFits (DestroyStep.lock d o) inv = ground (arith, inv.destroy_fits)
destroy-DestroyFits (DestroyStep.set d) inv = ground (arith, inv.destroy_fits)
destroy-DestroyFits {s} (DestroyStep.notify d) inv =
    (ground (arith, inv.destroy_fits), wake-awake s.write)
destroy-DestroyFits (DestroyStep.unlock d) inv = ground (arith, inv.destroy_fits)
destroy-DestroyFits (DestroyStep.join_finished d w) inv = ground (arith, inv.destroy_fits)
destroy-DestroyFits (DestroyStep.join_gave_up d w) inv = ground (arith, inv.destroy_fits)

pub DestroyStep-Inv : {s t : Logger} → DestroyStep s t → Inv s → Inv t
DestroyStep-Inv st inv = record {
  own_call = destroy-own_call st inv;
  own_write = destroy-own_write st inv;
  own_destroy = destroy-own_destroy st inv;
  history = destroy-history st inv;
  quiet = destroy-quiet st inv;
  write_fits = destroy-WriteFits st inv;
  destroy_fits = destroy-DestroyFits st inv;
}
