-- ===== src/Logger/WriteSteps.antt =====
-- The steps of `processEntries` keep the invariant.
use unix_ipc_note.Base.{ℕ, ◌≡◌, sym, ap, ◌∙◌, ◌⊎◌, true, [], ◌∷◌, ◌++◌, append_assoc, arith}
use unix_ipc_note.Logger.{caller, writer, destructor, outside, alive, Logger, WriteStep}
use unix_ipc_note.Logger.Invariant.{
  call_holds, write_holds, destroy_holds, WriteFits, DestroyFits, Inv,
}

write-own_call :
    {s t : Logger}
    → WriteStep s t
    → Inv s
    → (j : ℕ) → call_holds (t.calls j) ≡ true
    → t.owner ≡ caller j
write-own_call (WriteStep.open_fails w) inv j h = ground (arith, inv.own_call j, inv.own_write)
write-own_call (WriteStep.opened w) inv j h = ground (arith, inv.own_call j, inv.own_write)
write-own_call (WriteStep.enter w o) inv j h = ground (arith, inv.own_call j, inv.own_write)
write-own_call (WriteStep.wait w x) inv j h = ground (arith, inv.own_call j, inv.own_write)
write-own_call (WriteStep.go w x) inv j h = ground (arith, inv.own_call j, inv.own_write)
write-own_call (WriteStep.rouse w) inv j h = ground (arith, inv.own_call j, inv.own_write)
write-own_call (WriteStep.wake_up w o) inv j h = ground (arith, inv.own_call j, inv.own_write)
write-own_call (WriteStep.release w) inv j h = ground (arith, inv.own_call j, inv.own_write)
write-own_call (WriteStep.relock w o) inv j h = ground (arith, inv.own_call j, inv.own_write)
write-own_call (WriteStep.none_left w q) inv j h = ground (arith, inv.own_call j, inv.own_write)
write-own_call (WriteStep.take w q) inv j h = ground (arith, inv.own_call j, inv.own_write)
write-own_call (WriteStep.unlock w) inv j h = ground (arith, inv.own_call j, inv.own_write)
write-own_call (WriteStep.again w x) inv j h = ground (arith, inv.own_call j, inv.own_write)
write-own_call (WriteStep.finish w x) inv j h = ground (arith, inv.own_call j, inv.own_write)

write-own_write :
    {s t : Logger} → WriteStep s t → Inv s → write_holds t.write ≡ true → t.owner ≡ writer
write-own_write (WriteStep.open_fails w) inv h = ground (arith, inv.own_write)
write-own_write (WriteStep.opened w) inv h = ground (arith, inv.own_write)
write-own_write (WriteStep.enter w o) inv h = ground (arith, inv.own_write)
write-own_write (WriteStep.wait w x) inv h = ground (arith, inv.own_write)
write-own_write (WriteStep.go w x) inv h = ground (arith, inv.own_write)
write-own_write (WriteStep.rouse w) inv h = ground (arith, inv.own_write)
write-own_write (WriteStep.wake_up w o) inv h = ground (arith, inv.own_write)
write-own_write (WriteStep.release w) inv h = ground (arith, inv.own_write)
write-own_write (WriteStep.relock w o) inv h = ground (arith, inv.own_write)
write-own_write (WriteStep.none_left w q) inv h = ground (arith, inv.own_write)
write-own_write (WriteStep.take w q) inv h = ground (arith, inv.own_write)
write-own_write (WriteStep.unlock w) inv h = ground (arith, inv.own_write)
write-own_write (WriteStep.again w x) inv h = ground (arith, inv.own_write)
write-own_write (WriteStep.finish w x) inv h = ground (arith, inv.own_write)

write-own_destroy :
    {s t : Logger} → WriteStep s t → Inv s → destroy_holds t.destroy ≡ true → t.owner ≡ destructor
write-own_destroy (WriteStep.open_fails w) inv h = ground (arith, inv.own_destroy, inv.own_write)
write-own_destroy (WriteStep.opened w) inv h = ground (arith, inv.own_destroy, inv.own_write)
write-own_destroy (WriteStep.enter w o) inv h = ground (arith, inv.own_destroy, inv.own_write)
write-own_destroy (WriteStep.wait w x) inv h = ground (arith, inv.own_destroy, inv.own_write)
write-own_destroy (WriteStep.go w x) inv h = ground (arith, inv.own_destroy, inv.own_write)
write-own_destroy (WriteStep.rouse w) inv h = ground (arith, inv.own_destroy, inv.own_write)
write-own_destroy (WriteStep.wake_up w o) inv h = ground (arith, inv.own_destroy, inv.own_write)
write-own_destroy (WriteStep.release w) inv h = ground (arith, inv.own_destroy, inv.own_write)
write-own_destroy (WriteStep.relock w o) inv h = ground (arith, inv.own_destroy, inv.own_write)
write-own_destroy (WriteStep.none_left w q) inv h = ground (arith, inv.own_destroy, inv.own_write)
write-own_destroy (WriteStep.take w q) inv h = ground (arith, inv.own_destroy, inv.own_write)
write-own_destroy (WriteStep.unlock w) inv h = ground (arith, inv.own_destroy, inv.own_write)
write-own_destroy (WriteStep.again w x) inv h = ground (arith, inv.own_destroy, inv.own_write)
write-own_destroy (WriteStep.finish w x) inv h = ground (arith, inv.own_destroy, inv.own_write)

write-history : {s t : Logger} → WriteStep s t → Inv s → t.written ++ t.queue ≡ t.logged
write-history (WriteStep.open_fails w) inv = inv.history
write-history (WriteStep.opened w) inv = inv.history
write-history (WriteStep.enter w o) inv = inv.history
write-history (WriteStep.wait w x) inv = inv.history
write-history (WriteStep.go w x) inv = inv.history
write-history (WriteStep.rouse w) inv = inv.history
write-history (WriteStep.wake_up w o) inv = inv.history
write-history (WriteStep.release w) inv = inv.history
write-history (WriteStep.relock w o) inv = inv.history
write-history (WriteStep.none_left w q) inv = inv.history
write-history {s} (WriteStep.take {e} {rest} w q) inv =
    append_assoc s.written (e ∷ []) rest ∙ ap (λ l. s.written ++ l) (sym q) ∙ inv.history
write-history (WriteStep.unlock w) inv = inv.history
write-history (WriteStep.again w x) inv = inv.history
write-history (WriteStep.finish w x) inv = inv.history

write-quiet :
    {s t : Logger} → WriteStep s t → Inv s → (t.destroy ≡ alive) ⊎ ((i : ℕ) → t.calls i ≡ outside)
write-quiet (WriteStep.open_fails w) inv = inv.quiet
write-quiet (WriteStep.opened w) inv = inv.quiet
write-quiet (WriteStep.enter w o) inv = inv.quiet
write-quiet (WriteStep.wait w x) inv = inv.quiet
write-quiet (WriteStep.go w x) inv = inv.quiet
write-quiet (WriteStep.rouse w) inv = inv.quiet
write-quiet (WriteStep.wake_up w o) inv = inv.quiet
write-quiet (WriteStep.release w) inv = inv.quiet
write-quiet (WriteStep.relock w o) inv = inv.quiet
write-quiet (WriteStep.none_left w q) inv = inv.quiet
write-quiet (WriteStep.take w q) inv = inv.quiet
write-quiet (WriteStep.unlock w) inv = inv.quiet
write-quiet (WriteStep.again w x) inv = inv.quiet
write-quiet (WriteStep.finish w x) inv = inv.quiet

write-WriteFits : {s t : Logger} → WriteStep s t → Inv s → WriteFits t.write t.queue t.exit
write-WriteFits (WriteStep.open_fails w) inv = tt
write-WriteFits (WriteStep.opened w) inv = tt
write-WriteFits (WriteStep.enter w o) inv = tt
write-WriteFits (WriteStep.wait w x) inv = tt
write-WriteFits (WriteStep.go w x) inv = tt
write-WriteFits (WriteStep.rouse w) inv = tt
write-WriteFits (WriteStep.wake_up w o) inv = tt
write-WriteFits (WriteStep.release w) inv = tt
write-WriteFits (WriteStep.relock w o) inv = tt
write-WriteFits (WriteStep.none_left w q) inv = q
write-WriteFits (WriteStep.take w q) inv = tt
write-WriteFits (WriteStep.unlock w) inv = tt
write-WriteFits (WriteStep.again w x) inv = tt
write-WriteFits (WriteStep.finish w x) inv = ground (arith, inv.write_fits)

write-DestroyFits : {s t : Logger} → WriteStep s t → Inv s → DestroyFits t.destroy t.exit t.write
write-DestroyFits (WriteStep.open_fails w) inv = ground (arith, inv.destroy_fits)
write-DestroyFits (WriteStep.opened w) inv = ground (arith, inv.destroy_fits)
write-DestroyFits (WriteStep.enter w o) inv = ground (arith, inv.destroy_fits)
write-DestroyFits (WriteStep.wait w x) inv = ground (arith, inv.destroy_fits)
write-DestroyFits (WriteStep.go w x) inv = ground (arith, inv.destroy_fits)
write-DestroyFits (WriteStep.rouse w) inv = ground (arith, inv.destroy_fits)
write-DestroyFits (WriteStep.wake_up w o) inv = ground (arith, inv.destroy_fits)
write-DestroyFits (WriteStep.release w) inv = ground (arith, inv.destroy_fits)
write-DestroyFits (WriteStep.relock w o) inv = ground (arith, inv.destroy_fits)
write-DestroyFits (WriteStep.none_left w q) inv = ground (arith, inv.destroy_fits)
write-DestroyFits (WriteStep.take w q) inv = ground (arith, inv.destroy_fits)
write-DestroyFits (WriteStep.unlock w) inv = ground (arith, inv.destroy_fits)
write-DestroyFits (WriteStep.again w x) inv = ground (arith, inv.destroy_fits)
write-DestroyFits (WriteStep.finish w x) inv = ground (arith, inv.destroy_fits)

pub WriteStep-Inv : {s t : Logger} → WriteStep s t → Inv s → Inv t
WriteStep-Inv st inv = record {
  own_call = write-own_call st inv;
  own_write = write-own_write st inv;
  own_destroy = write-own_destroy st inv;
  history = write-history st inv;
  quiet = write-quiet st inv;
  write_fits = write-WriteFits st inv;
  destroy_fits = write-DestroyFits st inv;
}
