-- ===== src/Semaphores/Tests.antt =====
-- Runs of the producer and the consumer, and the theorems there.
use unix_ipc_note.Base.{◌+◌, ◌≤◌, ◌≡◌, refl, [], update, arith}
use unix_ipc_note.Semaphores.{
  at_slot, leaving, Produce, Consume, look, System, produce, consume, Reach, here, next,
}
use unix_ipc_note.Semaphores.Bounded.{below, ring_in_order}

-- The first item is stored, and the consumer has looked at it.
abbrev looked : System
looked = record {
  mem = look 0 (record {
    buff = update (λ _. 7) 0 0;
    mutex = 0;
    empty_num = 9;
    stored_num = 0;
    seen = [];
    reported = [];
  });
  producer = record { place = at_slot; i = 1 };
  consumer = record { place = leaving; i = 0 };
}

looked-Reach : Reach (λ _. 7) 8 looked
looked-Reach =
    let taken = next here (produce (Produce.take_empty (omega arith) refl)) in
    let locked = next taken (produce (Produce.lock refl)) in
    let stored = next locked (produce Produce.store) in
    let unlocked = next stored (produce Produce.unlock) in
    let posted = next unlocked (produce Produce.post_stored) in
    let found = next posted (consume (Consume.take_stored (omega arith) refl)) in
    let entered = next found (consume (Consume.lock refl)) in next entered (consume Consume.check)

ring_in_order_example : (looked.mem.seen ≡ below 1) × (0 + 1 ≤ 1) × (0 ≤ 10)
ring_in_order_example = ring_in_order looked-Reach
