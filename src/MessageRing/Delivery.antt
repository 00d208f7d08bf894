-- ===== src/MessageRing/Delivery.antt =====
-- What the client stores, the service prints, and what it does not store it counts.
use unix_ipc_note.Base.{ℕ, ◌+◌, ◌%◌, ◌<◌, ◌≤◌, ◌≡◌, arith, ℕ_discrete}
use unix_ipc_note.MessageRing.{
  message_num, Shared, Client, Service, Print, System, send, print, Reach, here, next,
}
use unix_ipc_note.MessageRing.Invariant.{
  in_round, critical, has_stored, printing, critical_print, has_printed, Inv, next_index-mod,
  Send-Inv,
}

Print-counts :
    {m m' : Shared} {c : Client} {v v' : Service}
    → Print m v m' v'
    → Inv m c v
    → (m'.mutex + critical c.place + critical_print v'.place ≡ 1)
      × (m'.empty_num + in_round c.place + c.round ≡ message_num + v'.round)
      × (m'.stored_num + printing v'.place + v'.round ≡ c.round)
      × (v'.index ≡ v'.round % message_num)
      × (m'.overflow + c.round ≡ c.i)
Print-counts (Print.wait e) inv =
    ground (arith, inv.one_inside, inv.empties, inv.storeds, inv.indices, inv.counted)
Print-counts (Print.lock e) inv =
    ground (arith, inv.one_inside, inv.empties, inv.storeds, inv.indices, inv.counted)
Print-counts Print.show inv =
    ground (arith, inv.one_inside, inv.empties, inv.storeds, inv.indices, inv.counted)
Print-counts Print.unlock inv =
    ground (arith, inv.one_inside, inv.empties, inv.storeds, inv.indices, inv.counted)
Print-counts (Print.post {n}) inv =
    ground
      (arith, inv.one_inside, inv.empties, inv.storeds, inv.indices, inv.counted, next_index-mod n)

Print-held :
    {m m' : Shared} {c : Client} {v v' : Service}
    → Print m v m' v'
    → Inv m c v
    → (k : ℕ) → v'.round ≤ k
    → k < c.round + has_stored c.place
    → m'.messages (k % message_num) ≡ m'.stored k
Print-held (Print.wait e) inv k lo hi = inv.held k lo hi
Print-held (Print.lock e) inv k lo hi = inv.held k lo hi
Print-held Print.show inv k lo hi = inv.held k lo hi
Print-held Print.unlock inv k lo hi = inv.held k lo hi
Print-held Print.post inv k lo hi = inv.held k (omega arith) hi

Print-shown :
    {m m' : Shared} {c : Client} {v v' : Service}
    → Print m v m' v'
    → Inv m c v
    → (k : ℕ) → k < v'.round + has_printed v'.place
    → m'.printed k ≡ m'.stored k
Print-shown (Print.wait e) inv k h = inv.shown k h
Print-shown (Print.lock e) inv k h = inv.shown k h
Print-shown Print.unlock inv k h = inv.shown k h
Print-shown Print.post inv k h = inv.shown k (omega arith)
Print-shown (Print.show {x} {n}) inv k h = elim (ℕ_discrete n k) [
  | yes e ↦
      let there = inv.held n (omega arith) (omega (arith, inv.storeds)) in
      ground (arith, inv.indices, there)
  | no ne ↦ let before : k < n + 0 = omega (arith, ne) in ground (arith, inv.shown k before)
]

Print-Inv :
    {m m' : Shared} {c : Client} {v v' : Service} → Print m v m' v' → Inv m c v → Inv m' c v'
Print-Inv st inv =
    let counts = Print-counts st inv in
    record {
      one_inside = counts.0;
      empties = counts.1;
      storeds = counts.2;
      indices = (inv.indices.0, counts.3);
      counted = counts.4;
      held = Print-held st inv;
      shown = Print-shown st inv;
    }

pub Reach-Inv : {s : System} → Reach s → Inv s.mem s.client s.service
Reach-Inv here = record {
  one_inside = omega arith;
  empties = omega arith;
  storeds = omega arith;
  indices = (omega arith, omega arith);
  counted = omega arith;
  held = λ k lo hi. absurd (omega arith);
  shown = λ k h. absurd (omega arith);
}
Reach-Inv (next r (send st)) = Send-Inv st (Reach-Inv r)
Reach-Inv (next r (print st)) = Print-Inv st (Reach-Inv r)

-- In every reachable state with one client the messages that the service has printed are those that
-- the client has stored, each under its number; and every round of the client has either stored its
-- message or been counted as overflow.
pub messages_delivered :
    {s : System}
    → Reach s
    → ((k : ℕ)
        → k < s.service.round + has_printed s.service.place
        → s.mem.printed k ≡ s.mem.stored k)
      × (s.mem.overflow + s.client.round ≡ s.client.i)
messages_delivered r = let inv = Reach-Inv r in (inv.shown, inv.counted)
