-- ===== src/Semaphores/Many/Counted.antt =====
-- How many threads there are, and how many steps they have made.
use unix_ipc_note.Base.{ℕ, suc, ◌+◌, ◌-◌, ◌*◌, ◌≡◌, ◌∙◌, arith}
use unix_ipc_note.Semaphores.Many.{
  Producers, Consumers, Shared, System, Produce, Consume, produce, consume, Reach, here, next,
}
use unix_ipc_note.Semaphores.Many.Invariant.{Inv}
use unix_ipc_note.Semaphores.Many.Items.{Reach-Inv, take_out-totals}

abbrev pub producers_in : Producers → ℕ
producers_in p =
    p.at_slot + p.at_mutex + p.stored + p.posting + p.last_stored + p.last_empty + p.last_mutex
    + p.ended

abbrev pub consumers_in : Consumers → ℕ
consumers_in c =
    c.at_slot + c.at_mutex + c.taken + c.posting + c.last_stored + c.last_mutex + c.ended

Produce-in :
    {m m' : Shared} {p p' : Producers} → Produce m p m' p' → producers_in p' ≡ producers_in p
Produce-in (Produce.take_empty w e) = omega arith
Produce-in (Produce.lock w e l) = omega arith
Produce-in (Produce.lock_last w e l) = omega arith
Produce-in (Produce.unlock w) = omega arith
Produce-in (Produce.post_stored w) = omega arith
Produce-in (Produce.post_last_stored w) = omega arith
Produce-in (Produce.post_last_empty w) = omega arith
Produce-in (Produce.unlock_last w) = omega arith

Consume-in :
    {m m' : Shared} {c c' : Consumers} → Consume m c m' c' → consumers_in c' ≡ consumers_in c
Consume-in (Consume.take_stored w e) = omega arith
Consume-in (Consume.lock w e l) = omega arith
Consume-in (Consume.lock_last w e l) = omega arith
Consume-in (Consume.unlock w) = omega arith
Consume-in (Consume.post_empty w) = omega arith
Consume-in (Consume.post_last_stored w) = omega arith
Consume-in (Consume.unlock_last w) = omega arith

pub Reach-in :
    {n k i : ℕ} {s : System}
    → Reach n k i s
    → (producers_in s.producers ≡ n) × (consumers_in s.consumers ≡ k)
Reach-in here = omega arith
Reach-in (next r (produce mv)) = ((Produce-in mv) ∙ (Reach-in r).0, (Reach-in r).1)
Reach-in (next r (consume mv)) = ((Reach-in r).0, (Consume-in mv) ∙ (Reach-in r).1)

-- The steps that the producers have made, less those that the rounds begun still need.
abbrev pub Passed : ℕ → System → Type 0
Passed i s =
    i
      + (2 * s.producers.stored + s.producers.posting)
      + (2 * s.consumers.taken + s.consumers.posting)
    ≡ 4 * (s.mem.total_produced + s.mem.total_consumed)
      + (s.producers.at_mutex
          + 2 * s.producers.last_stored
          + 3 * s.producers.last_empty
          + 4 * s.producers.last_mutex
          + 5 * s.producers.ended)
      + (s.consumers.at_mutex
          + 2 * s.consumers.last_stored
          + 3 * s.consumers.last_mutex
          + 4 * s.consumers.ended)

Produce-Passed :
    (i : ℕ) {m m' : Shared} {p p' : Producers} (c : Consumers)
    → Produce m p m' p'
    → Passed i (record { mem = m; producers = p; consumers = c })
    → Passed (suc i) (record { mem = m'; producers = p'; consumers = c })
Produce-Passed i c (Produce.take_empty w e) h = omega arith
Produce-Passed i c (Produce.lock w e l) h = omega arith
Produce-Passed i c (Produce.lock_last w e l) h = omega arith
Produce-Passed i c (Produce.unlock w) h = omega arith
Produce-Passed i c (Produce.post_stored w) h = omega arith
Produce-Passed i c (Produce.post_last_stored w) h = omega arith
Produce-Passed i c (Produce.post_last_empty w) h = omega arith
Produce-Passed i c (Produce.unlock_last w) h = omega arith

Consume-Passed :
    (i : ℕ) {m m' : Shared} {p : Producers} {c c' : Consumers}
    → Consume m c m' c'
    → Inv m p c
    → Passed i (record { mem = m; producers = p; consumers = c })
    → Passed (suc i) (record { mem = m'; producers = p; consumers = c' })
Consume-Passed i (Consume.take_stored w e) inv h = omega arith
Consume-Passed i {m} (Consume.lock w e l) inv h =
    let totals = take_out-totals inv w l (m.mutex - 1) in rw (totals.0, totals.1) (omega arith)
Consume-Passed i (Consume.lock_last w e l) inv h = omega arith
Consume-Passed i (Consume.unlock w) inv h = omega arith
Consume-Passed i (Consume.post_empty w) inv h = omega arith
Consume-Passed i (Consume.post_last_stored w) inv h = omega arith
Consume-Passed i (Consume.unlock_last w) inv h = omega arith

pub Reach-Passed : {n k i : ℕ} {s : System} → Reach n k i s → Passed i s
Reach-Passed here = omega arith
Reach-Passed (next {s} r (produce mv)) = Produce-Passed _ s.consumers mv (Reach-Passed r)
Reach-Passed (next r (consume mv)) = Consume-Passed _ mv (Reach-Inv r) (Reach-Passed r)
