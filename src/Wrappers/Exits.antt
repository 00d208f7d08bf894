-- ===== src/Wrappers/Exits.antt =====
-- Which errors the wrappers let through, and which end the process.
use unix_ipc_note.Base.{◌≡◌, ◌↔◌, refl}
use unix_ipc_note.System.{Errno, eagain, eexist, etimedout, Outcome, returned, failed}
use unix_ipc_note.Wrappers.{Sem_trywait, Sem_timedwait, Sem_clockwait, Mkfifo}

-- That the process survives an error.
abbrev pub Survives {ℓ} : {A : Type ℓ} → Outcome A → Type 0
Survives (returned a) = Unit
Survives _ = ⊥

trywait : (e : Errno) → Survives (Sem_trywait (failed e)) ↔ (e ≡ eagain)
unfolding Sem_trywait
trywait eagain = (λ h. refl, λ h. tt)
trywait e = (λ h. absurd h, λ h. cc)

timedwait : (e : Errno) → Survives (Sem_timedwait (failed e)) ↔ (e ≡ etimedout)
unfolding Sem_timedwait
timedwait etimedout = (λ h. refl, λ h. tt)
timedwait e = (λ h. absurd h, λ h. cc)

mkfifo : (e : Errno) → Survives (Mkfifo (failed e)) ↔ (e ≡ eexist)
unfolding Mkfifo
mkfifo eexist = (λ h. refl, λ h. tt)
mkfifo e = (λ h. absurd h, λ h. cc)

-- The process survives an error of `Sem_trywait` exactly when the semaphore is taken, of
-- `Sem_timedwait` exactly when the time is up, and of `Mkfifo` exactly when the name is there
-- already; of `Sem_clockwait` it survives none, the end of its time included.
pub errors_let_through :
    ((e : Errno) → Survives (Sem_trywait (failed e)) ↔ (e ≡ eagain))
    × ((e : Errno) → Survives (Sem_timedwait (failed e)) ↔ (e ≡ etimedout))
    × ((e : Errno) → Survives (Mkfifo (failed e)) ↔ (e ≡ eexist))
    × ((e : Errno) → ¬ Survives (Sem_clockwait (failed e)))
unfolding Sem_clockwait
errors_let_through = (trywait, timedwait, mkfifo, λ e h. h)
