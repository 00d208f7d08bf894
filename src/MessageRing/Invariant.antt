-- ===== src/MessageRing/Invariant.antt =====
-- What holds between the ring, the client and the service, and that the client keeps it.
use unix_ipc_note.Base.{ℕ, ◌+◌, ◌%◌, ◌<◌, ◌≤◌, ◌≡◌, ◌≢◌, arith, ℕ_discrete}
use unix_ipc_note.MessageRing.{
  message_num, Shared, Sending, Client, Printing, Service, next_index, Send,
}

-- 1 from the wait for a place to the post of the message.
abbrev pub in_round : Sending → ℕ
in_round Sending.trying = 0
in_round Sending.raising = 0
in_round _ = 1

abbrev pub critical : Sending → ℕ
critical Sending.storing = 1
critical Sending.unlocking = 1
critical _ = 0

-- 1 behind the store.
abbrev pub has_stored : Sending → ℕ
has_stored Sending.unlocking = 1
has_stored Sending.posting = 1
has_stored _ = 0

abbrev pub printing : Printing → ℕ
printing Printing.waiting = 0
printing _ = 1

abbrev pub critical_print : Printing → ℕ
critical_print Printing.showing = 1
critical_print Printing.unlocking = 1
critical_print _ = 0

-- 1 behind the output.
abbrev pub has_printed : Printing → ℕ
has_printed Printing.unlocking = 1
has_printed Printing.posting = 1
has_printed _ = 0

pub record Inv (m : Shared) (c : Client) (v : Service) : Type 0 where
  pub one_inside : m.mutex + critical c.place + critical_print v.place ≡ 1
  pub empties : m.empty_num + in_round c.place + c.round ≡ message_num + v.round
  pub storeds : m.stored_num + printing v.place + v.round ≡ c.round
  pub indices : (c.index ≡ c.round % message_num) × (v.index ≡ v.round % message_num)
  pub counted : m.overflow + c.round ≡ c.i
  pub held :
      (k : ℕ)
      → v.round ≤ k
      → k < c.round + has_stored c.place
      → m.messages (k % message_num) ≡ m.stored k
  pub shown : (k : ℕ) → k < v.round + has_printed v.place → m.printed k ≡ m.stored k

pub next_index-mod : (n : ℕ) → next_index (n % message_num) ≡ (n + 1) % message_num
next_index-mod n = ground arith

Send-counts :
    {m m' : Shared} {c c' : Client} {v : Service}
    → Send m c m' c'
    → Inv m c v
    → (m'.mutex + critical c'.place + critical_print v.place ≡ 1)
      × (m'.empty_num + in_round c'.place + c'.round ≡ message_num + v.round)
      × (m'.stored_num + printing v.place + v.round ≡ c'.round)
      × (c'.index ≡ c'.round % message_num)
      × (m'.overflow + c'.round ≡ c'.i)
Send-counts (Send.try l e) inv =
    ground (arith, inv.one_inside, inv.empties, inv.storeds, inv.indices, inv.counted)
Send-counts (Send.full l e) inv =
    ground (arith, inv.one_inside, inv.empties, inv.storeds, inv.indices, inv.counted)
Send-counts Send.raise inv =
    ground (arith, inv.one_inside, inv.empties, inv.storeds, inv.indices, inv.counted)
Send-counts (Send.lock e) inv =
    ground (arith, inv.one_inside, inv.empties, inv.storeds, inv.indices, inv.counted)
Send-counts Send.store inv =
    ground (arith, inv.one_inside, inv.empties, inv.storeds, inv.indices, inv.counted)
Send-counts Send.unlock inv =
    ground (arith, inv.one_inside, inv.empties, inv.storeds, inv.indices, inv.counted)
Send-counts (Send.post {n}) inv =
    ground
      (arith, inv.one_inside, inv.empties, inv.storeds, inv.indices, inv.counted, next_index-mod n)

Send-held :
    {m m' : Shared} {c c' : Client} {v : Service}
    → Send m c m' c'
    → Inv m c v
    → (k : ℕ) → v.round ≤ k
    → k < c'.round + has_stored c'.place
    → m'.messages (k % message_num) ≡ m'.stored k
Send-held (Send.try l e) inv k lo hi = inv.held k lo (omega arith)
Send-held (Send.full l e) inv k lo hi = inv.held k lo (omega arith)
Send-held Send.raise inv k lo hi = inv.held k lo (omega arith)
Send-held (Send.lock e) inv k lo hi = inv.held k lo (omega arith)
Send-held (Send.store {i} {x} {n}) inv k lo hi = elim (ℕ_discrete n k) [
  | yes e ↦ ground (arith, inv.indices)
  | no ne ↦
      let before : k < n + 0 = omega (arith, ne) in
      let apart : x ≢ k % message_num = omega (arith, inv.empties, inv.indices) in
      ground (arith, inv.held k lo before)
]
Send-held Send.unlock inv k lo hi = inv.held k lo (omega arith)
Send-held Send.post inv k lo hi = inv.held k lo (omega arith)

has_printed_le : (p : Printing) → has_printed p ≤ printing p
has_printed_le Printing.waiting = omega arith
has_printed_le Printing.locking = omega arith
has_printed_le Printing.showing = omega arith
has_printed_le Printing.unlocking = omega arith
has_printed_le Printing.posting = omega arith

Send-shown :
    {m m' : Shared} {c c' : Client} {v : Service}
    → Send m c m' c'
    → Inv m c v
    → (k : ℕ) → k < v.round + has_printed v.place
    → m'.printed k ≡ m'.stored k
Send-shown (Send.try l e) inv k h = inv.shown k h
Send-shown (Send.full l e) inv k h = inv.shown k h
Send-shown Send.raise inv k h = inv.shown k h
Send-shown (Send.lock e) inv k h = inv.shown k h
Send-shown Send.unlock inv k h = inv.shown k h
Send-shown Send.post inv k h = inv.shown k h
Send-shown {v} (Send.store {i} {x} {n}) inv k h =
    let before : k < n = omega (arith, h, inv.storeds, has_printed_le v.place) in
    let apart : n ≢ k = omega (arith, before) in ground (arith, inv.shown k h)

pub Send-Inv :
    {m m' : Shared} {c c' : Client} {v : Service} → Send m c m' c' → Inv m c v → Inv m' c' v
Send-Inv st inv =
    let counts = Send-counts st inv in
    record {
      one_inside = counts.0;
      empties = counts.1;
      storeds = counts.2;
      indices = (counts.3, inv.indices.1);
      counted = counts.4;
      held = Send-held st inv;
      shown = Send-shown st inv;
    }
