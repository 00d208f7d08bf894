-- ===== src/Logger/Invariant.antt =====
-- Who holds the mutex, and what each place says of the members.
use unix_ipc_note.Base.{ℕ, ◌≡◌, ◌≢◌, refl, ◌⊎◌, inl, Bool, true, false, List, [], ◌++◌}
use unix_ipc_note.Logger.{
  caller, writer, destructor, Call, outside, Write, sleeping, finished, gave_up, Destroy, alive,
  Logger, wake, start,
}

-- Between the lock and the release of mMutex.
abbrev pub call_holds : Call → Bool
call_holds (Call.pushing e) = true
call_holds Call.notifying = true
call_holds Call.unlocking = true
call_holds _ = false

abbrev pub write_holds : Write → Bool
write_holds Write.testing = true
write_holds Write.releasing = true
write_holds Write.looking = true
write_holds Write.unlocking = true
write_holds Write.deciding = true
write_holds _ = false

abbrev pub destroy_holds : Destroy → Bool
destroy_holds Destroy.setting = true
destroy_holds Destroy.notifying = true
destroy_holds Destroy.unlocking = true
destroy_holds _ = false

-- What the writer's place says of the queue and of mExit.
abbrev pub WriteFits : Write → List ℕ → Bool → Type 0
WriteFits Write.deciding queue exit = queue ≡ []
WriteFits Write.finished queue exit = (queue ≡ []) × (exit ≡ true)
WriteFits _ queue exit = Unit

-- What the destructor's place says of mExit and of the writer.
abbrev pub DestroyFits : Destroy → Bool → Write → Type 0
DestroyFits Destroy.alive exit w = exit ≡ false
DestroyFits Destroy.locking exit w = exit ≡ false
DestroyFits Destroy.setting exit w = exit ≡ false
DestroyFits Destroy.notifying exit w = exit ≡ true
DestroyFits Destroy.unlocking exit w = (exit ≡ true) × (w ≢ sleeping)
DestroyFits Destroy.joining exit w = (exit ≡ true) × (w ≢ sleeping)
DestroyFits Destroy.gone exit w = (exit ≡ true) × ((w ≡ finished) ⊎ (w ≡ gave_up))

pub record Inv (s : Logger) : Type 0 where
  pub own_call : (i : ℕ) → call_holds (s.calls i) ≡ true → s.owner ≡ caller i
  pub own_write : write_holds s.write ≡ true → s.owner ≡ writer
  pub own_destroy : destroy_holds s.destroy ≡ true → s.owner ≡ destructor
  pub history : s.written ++ s.queue ≡ s.logged
  pub quiet : (s.destroy ≡ alive) ⊎ ((i : ℕ) → s.calls i ≡ outside)
  pub write_fits : WriteFits s.write s.queue s.exit
  pub destroy_fits : DestroyFits s.destroy s.exit s.write

pub start-Inv : Inv start
start-Inv = record {
  own_call = λ i h. cc;
  own_write = λ h. cc;
  own_destroy = λ h. cc;
  history = refl;
  quiet = inl refl;
  write_fits = tt;
  destroy_fits = refl;
}

pub wake-holds : (w : Write) → write_holds (wake w) ≡ write_holds w
wake-holds Write.sleeping = refl
wake-holds w = refl

pub wake-fits : (w : Write) (q : List ℕ) (x : Bool) → WriteFits w q x → WriteFits (wake w) q x
wake-fits Write.sleeping q x f = tt
wake-fits w q x f = f
