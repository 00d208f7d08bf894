-- ===== src/MessageRing/Tests.antt =====
-- A message on its way, and the theorem there.
use unix_ipc_note.Base.{ℕ, ◌+◌, ◌<◌, ◌≡◌, refl, update, arith}
use unix_ipc_note.MessageRing.{
  System, Sending, Printing, Send, Print, send, print, Reach, here, next,
}
use unix_ipc_note.MessageRing.Delivery.{messages_delivered}

-- The first message is stored and printed.
abbrev printed_one : System
printed_one = record {
  mem = record {
    messages = update (λ _. 0) 0 0;
    mutex = 0;
    empty_num = 15;
    stored_num = 0;
    overflow = 0;
    stored = update (λ _. 0) 0 0;
    printed = update (λ _. 0) 0 (update (λ _. 0) 0 0 0);
  };
  client = record { place = Sending.trying; i = 1; index = 1; round = 1 };
  service = record { place = Printing.unlocking; index = 0; round = 0 };
}

printed_one-Reach : Reach printed_one
printed_one-Reach =
    let taken = next here (send (Send.try (omega arith) refl)) in
    let locked = next taken (send (Send.lock refl)) in
    let stored = next locked (send Send.store) in
    let unlocked = next stored (send Send.unlock) in
    let posted = next unlocked (send Send.post) in
    let found = next posted (print (Print.wait refl)) in
    let held = next found (print (Print.lock refl)) in next held (print Print.show)

messages_delivered_example :
    ((k : ℕ) → k < 0 + 1 → printed_one.mem.printed k ≡ printed_one.mem.stored k)
    × (◌≡◌ {A = ℕ} (0 + 1) 1)
messages_delivered_example = messages_delivered printed_one-Reach
