-- ===== src/Semaphores/Progress.antt =====
-- The two loops never block each other for good, and end.
use native.Mathlib.Decide.{dec_lt}
use unix_ipc_note.Base.{
  ℕ, suc, ◌+◌, ◌-◌, ◌*◌, ◌<◌, ◌≤◌, ◌≡◌, refl, ◌⊎◌, inl, inr, arith, ℕ_discrete,
}
use unix_ipc_note.Semaphores.{
  items_num, Place, at_slot, at_mutex, inside, leaving, posting, Thread, Shared, Produce, Consume,
  System, Step, produce, consume, Reach, here, next,
}
use unix_ipc_note.Semaphores.Bounded.{in_round, Inv, Reach-Inv}

abbrev pub place_number : Place → ℕ
place_number at_slot = 0
place_number at_mutex = 1
place_number inside = 2
place_number leaving = 3
place_number posting = 4

-- How far a thread has come.
abbrev pub passed : Thread → ℕ
passed t = 5 * t.i + place_number t.place

abbrev pub Finished : System → Type 0
Finished s =
    (s.producer.place ≡ at_slot)
    × (s.producer.i ≡ items_num)
    × (s.consumer.place ≡ at_slot)
    × (s.consumer.i ≡ items_num)

Produce-passed : {m m' : Shared} {p p' : Thread} → Produce m p m' p' → passed p' ≡ suc (passed p)
Produce-passed (Produce.take_empty l e) = omega arith
Produce-passed (Produce.lock e) = omega arith
Produce-passed Produce.store = omega arith
Produce-passed Produce.unlock = omega arith
Produce-passed Produce.post_stored = omega arith

Consume-passed : {m m' : Shared} {p p' : Thread} → Consume m p m' p' → passed p' ≡ suc (passed p)
Consume-passed (Consume.take_stored l e) = omega arith
Consume-passed (Consume.lock e) = omega arith
Consume-passed Consume.check = omega arith
Consume-passed Consume.unlock = omega arith
Consume-passed Consume.post_empty = omega arith

Reach-passed :
    {buff : ℕ → ℕ} {k : ℕ} {s : System} → Reach buff k s → k ≡ passed s.producer + passed s.consumer
Reach-passed here = omega arith
Reach-passed (next r (produce mv)) = omega (arith, Reach-passed r, Produce-passed mv)
Reach-passed (next r (consume mv)) = omega (arith, Reach-passed r, Consume-passed mv)

-- Some step is possible, or both loops are at their ends.
Ready : System → Type 0
Ready s = Finished s ⊎ ((t : System) × Step s t)

module _ (m : Shared) {p c : ℕ} where
  -- Neither thread is in a round.
  between-Ready :
      Dec (p < items_num)
      → Dec (m.empty_num ≡ 0)
      → Dec (m.stored_num ≡ 0)
      → Inv m (record { place = at_slot; i = p }) (record { place = at_slot; i = c })
      → Ready (record {
        mem = m;
        producer = record { place = at_slot; i = p };
        consumer = record { place = at_slot; i = c };
      })
  unfolding Ready
  between-Ready (yes l) (no e) f inv =
      let some_left : m.empty_num ≡ suc (m.empty_num - 1) = omega (arith, e) in
      inr (_, produce (Produce.take_empty l some_left))
  between-Ready l e (no f) inv =
      let some_stored : m.stored_num ≡ suc (m.stored_num - 1) = omega (arith, f) in
      inr
        (_, consume (Consume.take_stored (omega (arith, f, inv.stored, inv.producing)) some_stored))
  between-Ready (yes l) (yes e) (yes f) inv =
      absurd (omega (arith, l, e, f, inv.stored, inv.empties))
  between-Ready (no l) e (yes f) inv =
      inl (
        refl,
        omega (arith, l, inv.producing),
        refl,
        omega (arith, l, f, inv.producing, inv.stored),
      )

  -- A thread in the middle of a round can go on, or waits for the mutex while the other can go on.
  round-Ready :
      (a b : Place)
      → Inv m (record { place = a; i = p }) (record { place = b; i = c })
      → Ready (record {
        mem = m;
        producer = record { place = a; i = p };
        consumer = record { place = b; i = c };
      })
  unfolding Ready
  round-Ready inside b inv = inr (_, produce Produce.store)
  round-Ready leaving b inv = inr (_, produce Produce.unlock)
  round-Ready posting b inv = inr (_, produce Produce.post_stored)
  round-Ready a inside inv = inr (_, consume Consume.check)
  round-Ready a leaving inv = inr (_, consume Consume.unlock)
  round-Ready a posting inv = inr (_, consume Consume.post_empty)
  round-Ready at_mutex at_slot inv = inr (_, produce (Produce.lock (omega (arith, inv.one_inside))))
  round-Ready at_mutex at_mutex inv =
      inr (_, produce (Produce.lock (omega (arith, inv.one_inside))))
  round-Ready at_slot at_mutex inv = inr (_, consume (Consume.lock (omega (arith, inv.one_inside))))
  round-Ready at_slot at_slot inv =
      between-Ready (dec_lt p items_num) (ℕ_discrete m.empty_num 0) (ℕ_discrete m.stored_num 0) inv

-- In every state that the two threads reach, a step of one of them is possible or both have passed
-- all their rounds; so they never block each other for good.
pub no_deadlock :
    {buff : ℕ → ℕ} {k : ℕ} {s : System} → Reach buff k s → Finished s ⊎ ((t : System) × Step s t)
unfolding Ready
no_deadlock {s} r = round-Ready s.mem s.producer.place s.consumer.place (Reach-Inv r)

thread-passed :
    (a : Place) (i : ℕ)
    → i + in_round a ≤ items_num
    → (5 * i + place_number a ≤ 500)
      × (5 * i + place_number a ≡ 500 → (a ≡ at_slot) × (i ≡ items_num))
thread-passed at_slot i h = (omega arith, λ e. (refl, omega arith))
thread-passed at_mutex i h = (omega arith, λ e. absurd (omega arith))
thread-passed inside i h = (omega arith, λ e. absurd (omega arith))
thread-passed leaving i h = (omega arith, λ e. absurd (omega arith))
thread-passed posting i h = (omega arith, λ e. absurd (omega arith))

-- Every run is of at most 1000 steps, and one of 1000 steps has finished both loops.
pub loops_end :
    {buff : ℕ → ℕ} {k : ℕ} {s : System} → Reach buff k s → (k ≤ 1000) × (k ≡ 1000 → Finished s)
loops_end {s} r =
    let inv = Reach-Inv r in
    let p = thread-passed s.producer.place s.producer.i inv.producing in
    let c =
      thread-passed s.consumer.place s.consumer.i (omega (arith, inv.stored, inv.producing)) in
    (
      omega (arith, p.0, c.0, Reach-passed r),
      λ e.
          let p' = p.1 (omega (arith, p.0, c.0, Reach-passed r)) in
          let c' = c.1 (omega (arith, p.0, c.0, Reach-passed r)) in (p'.0, p'.1, c'.0, c'.1),
    )
