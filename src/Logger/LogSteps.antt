-- ===== src/Logger/LogSteps.antt =====
-- The steps of `log` keep the invariant.
use unix_ipc_note.Base.{
  ℕ, ◌≡◌, ◌≢◌, sym, ap, ◌∙◌, inl, inr, true, false, [], ◌∷◌, ◌++◌, append_assoc, arith,
}
use unix_ipc_note.Logger.{caller, writer, outside, alive, Logger, LogStep}
use unix_ipc_note.Logger.Invariant.{call_holds, write_holds, WriteFits, Inv, wake-holds, wake-fits}

module _ (i : ℕ) where
  -- A thread in `log` sees to it that the destructor has not begun.
  calling : {s : Logger} → Inv s → s.calls i ≢ outside → s.destroy ≡ alive
  calling {s} inv h = elim inv.quiet [ inl e ↦ e | inr all ↦ absurd (h (all i)) ]

  log-alive : {s t : Logger} → LogStep i s t → Inv s → (s.destroy ≡ alive) × (t.destroy ≡ alive)
  log-alive (LogStep.call e d c) inv = (d, d)
  log-alive (LogStep.lock c o) inv = let d = calling inv (λ e. cc) in (d, d)
  log-alive (LogStep.push c) inv = let d = calling inv (λ e. cc) in (d, d)
  log-alive (LogStep.notify c) inv = let d = calling inv (λ e. cc) in (d, d)
  log-alive (LogStep.unlock c) inv = let d = calling inv (λ e. cc) in (d, d)

  log-own_call :
      {s t : Logger}
      → LogStep i s t
      → Inv s
      → (j : ℕ) → call_holds (t.calls j) ≡ true
      → t.owner ≡ caller j
  log-own_call (LogStep.call e d c) inv j h = ground (arith, inv.own_call j)
  log-own_call (LogStep.lock c o) inv j h = ground (arith, inv.own_call j)
  log-own_call (LogStep.push c) inv j h = ground (arith, inv.own_call j, inv.own_call i)
  log-own_call (LogStep.notify c) inv j h = ground (arith, inv.own_call j, inv.own_call i)
  log-own_call (LogStep.unlock c) inv j h = ground (arith, inv.own_call j, inv.own_call i)

  log-own_write :
      {s t : Logger} → LogStep i s t → Inv s → write_holds t.write ≡ true → t.owner ≡ writer
  log-own_write (LogStep.lock c o) inv h = ground (arith, inv.own_write)
  log-own_write {s} (LogStep.notify c) inv h = inv.own_write (sym (wake-holds s.write) ∙ h)
  log-own_write (LogStep.unlock c) inv h = ground (arith, inv.own_write, inv.own_call i)
  log-own_write (LogStep.call e d c) inv h = inv.own_write h
  log-own_write (LogStep.push c) inv h = inv.own_write h

  log-WriteFits : {s t : Logger} → LogStep i s t → Inv s → WriteFits t.write t.queue t.exit
  log-WriteFits (LogStep.call e d c) inv = inv.write_fits
  log-WriteFits (LogStep.lock c o) inv = inv.write_fits
  log-WriteFits (LogStep.push c) inv =
      let d = calling inv (λ e. cc) in
      ground (arith, inv.write_fits, inv.destroy_fits, inv.own_write, inv.own_call i, d)
  log-WriteFits {s} (LogStep.notify c) inv = wake-fits s.write s.queue s.exit inv.write_fits
  log-WriteFits (LogStep.unlock c) inv = inv.write_fits

  log-exit : {s t : Logger} → LogStep i s t → Inv s → t.exit ≡ false
  log-exit (LogStep.call e d c) inv = ground (arith, inv.destroy_fits)
  log-exit (LogStep.lock c o) inv = ground (arith, inv.destroy_fits, calling inv)
  log-exit (LogStep.push c) inv = ground (arith, inv.destroy_fits, calling inv)
  log-exit (LogStep.notify c) inv = ground (arith, inv.destroy_fits, calling inv)
  log-exit (LogStep.unlock c) inv = ground (arith, inv.destroy_fits, calling inv)

  log-history : {s t : Logger} → LogStep i s t → Inv s → t.written ++ t.queue ≡ t.logged
  log-history {s} (LogStep.push {e} c) inv =
      sym (append_assoc s.written s.queue (e ∷ [])) ∙ ap (λ l. l ++ e ∷ []) inv.history
  log-history (LogStep.call e d c) inv = inv.history
  log-history (LogStep.lock c o) inv = inv.history
  log-history (LogStep.notify c) inv = inv.history
  log-history (LogStep.unlock c) inv = inv.history

  pub LogStep-Inv : {s t : Logger} → LogStep i s t → Inv s → Inv t
  LogStep-Inv {s} {t} st inv =
      let alive_after = (log-alive st inv).1 in
      record {
        own_call = log-own_call st inv;
        own_write = log-own_write st inv;
        own_destroy = λ h. cc;
        history = log-history st inv;
        quiet = inl alive_after;
        write_fits = log-WriteFits st inv;
        destroy_fits = rw alive_after (log-exit st inv);
      }
