-- ===== src/Logger/Tests.antt =====
-- A run of the logger with one entry, and the theorems there.
use unix_ipc_note.Base.{◌<◌, ◌≡◌, refl, ◌⊎◌, [], ◌∷◌, arith, ℕ_discrete}
use unix_ipc_note.Logger.{
  Logger, LogStep, WriteStep, DestroyStep, Step, log, process, end, Reach, here, next, gone,
  joining, gave_up,
}
use unix_ipc_note.Logger.Entries.{gone_complete}
use unix_ipc_note.Logger.Stop.{work, join_ends}

-- Thread 3 logs the entry 8 before the writer has the mutex, and the destructor is called.
stopping : (s : Logger) × Reach s × (s.destroy ≡ joining) × (s.logged ≡ 8 ∷ [])
unfolding ℕ_discrete
stopping =
    let called = next here (log 3 (LogStep.call 8 refl refl)) in
    let locked = next called (log 3 (LogStep.lock refl refl)) in
    let pushed = next locked (log 3 (LogStep.push refl)) in
    let told = next pushed (log 3 (LogStep.notify refl)) in
    let left = next told (log 3 (LogStep.unlock refl)) in
    let opened = next left (process (WriteStep.opened refl)) in
    let ending = next opened (end (DestroyStep.destroy refl (λ i. ground arith))) in
    let held = next ending (end (DestroyStep.lock refl refl)) in
    let set = next held (end (DestroyStep.set refl)) in
    let notified = next set (end (DestroyStep.notify refl)) in
    (_, next notified (end (DestroyStep.unlock refl)), refl, refl)

join_ends_example :
    ((t : Logger) × Step stopping.0 t)
    × ((t : Logger)
        → Step stopping.0 t
        → (t.destroy ≡ gone) ⊎ ((t.destroy ≡ joining) × (work t < work stopping.0)))
join_ends_example = join_ends (stopping.1) (stopping.2)

-- The writer has written the entry and ended, and the join has returned.
destroyed : (s : Logger) × Reach s × (s.destroy ≡ gone)
unfolding stopping ℕ_discrete
destroyed =
    let entered = next (stopping.1) (process (WriteStep.enter refl refl)) in
    let went = next entered (process (WriteStep.go refl refl)) in
    let released = next went (process (WriteStep.release refl)) in
    let locked = next released (process (WriteStep.relock refl refl)) in
    let taken = next locked (process (WriteStep.take refl refl)) in
    let unlocked = next taken (process (WriteStep.unlock refl)) in
    let again = next unlocked (process (WriteStep.relock refl refl)) in
    let empty = next again (process (WriteStep.none_left refl refl)) in
    let over = next empty (process (WriteStep.finish refl refl)) in
    (_, next over (end (DestroyStep.join_finished refl refl)), refl)

gone_complete_example : (destroyed.0.write ≡ gave_up) ⊎ (destroyed.0.written ≡ destroyed.0.logged)
gone_complete_example = gone_complete (destroyed.1) (destroyed.2)
