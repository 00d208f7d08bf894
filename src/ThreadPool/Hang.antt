-- ===== src/ThreadPool/Hang.antt =====
-- `stopAllThread_Control` sets the flag and broadcasts without the mutex. A worker that has tested
-- the flag and not yet gone to sleep misses the broadcast, and the join waits for it for ever.
use unix_ipc_note.Base.{ℕ, ◌<◌, ◌≡◌, refl, true, update, arith, ℕ_discrete}
use unix_ipc_note.ThreadPool.{
  Shared, Pc, sleeping, finished, is_empty, Move, lock, wait, sleep, Client, joining, ClientMove,
  call_add, stop, set_exit, System, Step, work, call, signal, signal_none, broadcast, joined, start,
  Later, now, then_step,
}

-- Worker `i` sleeps while the client joins.
abbrev pub Hangs : ℕ → System → Type 0
Hangs i s = (s.caller ≡ joining) × (s.pc i ≡ sleeping)

work-Hangs :
    {m m' : Shared} {p p' : Pc} (pc : ℕ → Pc) (i k : ℕ)
    → Move k m p m' p'
    → pc k ≡ p
    → pc i ≡ sleeping
    → update pc k p' i ≡ sleeping
work-Hangs pc i k (lock f) e h = ground arith
work-Hangs pc i k mv e h = ground arith

call-Hangs : {m m' : Shared} {c c' : Client} → ClientMove m c m' c' → c ≡ joining → ⊥
call-Hangs (call_add t) e = cc
call-Hangs mv e = cc

Step-Hangs : {n : ℕ} (i : ℕ) {s t : System} → i < n → Step n s t → Hangs i s → Hangs i t
Step-Hangs i {s} lt (work k lt' mv) h = (h.0, work-Hangs s.pc i k mv refl h.1)
Step-Hangs i lt (call mv) h = absurd (call-Hangs mv h.0)
Step-Hangs i lt (signal k c e) h = absurd (cc)
Step-Hangs i lt (signal_none c none) h = absurd (cc)
Step-Hangs i lt (broadcast c) h = absurd (cc)
Step-Hangs i {s} lt (joined c done) h = absurd (let e : s.pc i ≡ finished = done i lt in cc)

Later-Hangs : {n : ℕ} (i : ℕ) {s t : System} → i < n → Later n s t → Hangs i s → Hangs i t
Later-Hangs i lt now h = h
Later-Hangs i lt (then_step l st) h = Step-Hangs i lt st (Later-Hangs i lt l h)

-- With any number of workers, at least one, there is a run without spurious wake-ups after which
-- `stopAllThread_Control` has set the flag and broadcast, worker 0 sleeps, and whatever steps but
-- a spurious wake-up follow,
-- worker 0 goes on sleeping and the join does not return.
pub stop-Hangs :
    (n : ℕ)
    → 0 < n
    → (s : System) × Later n start s
      × (s.mem.exit ≡ true)
      × Hangs 0 s
      × ((t : System) → Later n s t → Hangs 0 t)
unfolding is_empty ℕ_discrete
stop-Hangs n lt =
    let testing_now = then_step now (work 0 lt (lock refl)) in
    let tested = then_step testing_now (work 0 lt (wait refl)) in
    let stopped = then_step tested (call (stop refl)) in
    let flagged = then_step stopped (call set_exit) in
    let told = then_step flagged (broadcast refl) in
    (
      _,
      then_step told (work 0 lt sleep),
      refl,
      (refl, refl),
      λ t l. Later-Hangs 0 lt l (refl, refl),
    )
