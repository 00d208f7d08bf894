-- ===== src/ThreadPool/Tests.antt =====
-- A run of the pool with two workers, and the theorems there.
use unix_ipc_note.Base.{◌<◌, ℕ, ◌≡◌, ◌≢◌, refl, true, [], ◌∷◌, ◌++◌, arith, ℕ_discrete}
use unix_ipc_note.ThreadPool.{
  finished, crashed, unlocking, is_empty, lock, go, stay, take, leave, finish, call_add, add_lock,
  push, add_unlock, stop, set_exit, System, work, call, broadcast, start, Reach, here, next, Later,
}
use unix_ipc_note.ThreadPool.Invariant.{tasks_in_order}
use unix_ipc_note.ThreadPool.Hang.{Hangs, stop-Hangs}

-- Task 4 is added, and worker 0 has taken it.
busy-Reach : (s : System) × Reach 2 s × (s.mem.ran ≡ 4 ∷ []) × (s.pc 0 ≡ unlocking)
unfolding is_empty ℕ_discrete
busy-Reach =
    let two : 0 < 2 = omega arith in
    let called = next here (call (call_add 4)) in
    let held = next called (call (add_lock refl)) in
    let pushed = next held (call push) in
    let free = next pushed (call add_unlock) in
    let locked = next free (work 0 two (lock refl)) in
    let gone = next locked (work 0 two (go refl)) in
    let stayed = next gone (work 0 two (stay refl)) in
    (_, next stayed (work 0 two (take refl)), refl, refl)

-- The flag is set while no task waits, and worker 0 has left.
left-Reach : (s : System) × Reach 2 s × (s.pc 0 ≡ finished)
unfolding is_empty ℕ_discrete
left-Reach =
    let two : 0 < 2 = omega arith in
    let stopped = next here (call (stop refl)) in
    let flagged = next stopped (call set_exit) in
    let told = next flagged (broadcast refl) in
    let locked = next told (work 0 two (lock refl)) in
    let gone = next locked (work 0 two (go refl)) in
    let out = next gone (work 0 two (leave refl)) in (_, next out (work 0 two finish), refl)

tasks_in_order_example :
    (busy-Reach.0.mem.ran ++ busy-Reach.0.mem.tasks ≡ busy-Reach.0.mem.added)
    × ((i : ℕ) → busy-Reach.0.pc i ≢ crashed)
tasks_in_order_example = tasks_in_order (busy-Reach.1)

stop-Hangs_example :
    (s : System) × Later 5 start s
    × (s.mem.exit ≡ true)
    × Hangs 0 s
    × ((t : System) → Later 5 s t → Hangs 0 t)
stop-Hangs_example = stop-Hangs 5 (omega arith)
