-- ===== src/Semaphores/Bounded.antt =====
-- The ring holds every item from its store to its check.
use unix_ipc_note.Base.{
  ℕ, zero, suc, ◌+◌, ◌%◌, ◌<◌, ◌≤◌, ◌≡◌, ◌≢◌, refl, not, List, [], ◌∷◌, ◌==◌, if◌then◌else◌, leb,
  arith, ℕ_discrete,
}
use unix_ipc_note.Semaphores.{
  buff_len, items_num, Place, at_slot, at_mutex, inside, leaving, posting, Thread, Shared, Produce,
  Consume, System, produce, consume, start, Reach, here, next,
}

-- 1 from the first wait of a round to its last post.
abbrev pub in_round : Place → ℕ
in_round at_slot = 0
in_round at_mutex = 1
in_round inside = 1
in_round leaving = 1
in_round posting = 1

-- 1 between the wait and the post on the mutex.
abbrev pub critical : Place → ℕ
critical at_slot = 0
critical at_mutex = 0
critical inside = 1
critical leaving = 1
critical posting = 0

-- 1 behind the access to the ring.
abbrev pub accessed : Place → ℕ
accessed at_slot = 0
accessed at_mutex = 0
accessed inside = 0
accessed leaving = 1
accessed posting = 1

-- n - 1, ..., 1, 0
unfoldable pub below : ℕ → List ℕ
below zero = []
below (suc n) = n ∷ below n

-- n - 1, ..., 10
unfoldable pub below_to_len : ℕ → List ℕ
below_to_len zero = []
below_to_len (suc n) = if leb buff_len n then n ∷ below_to_len n else below_to_len n

pub record Inv (m : Shared) (p c : Thread) : Type 0 where
  pub one_inside : m.mutex + critical p.place + critical c.place ≡ 1
  pub empties : m.empty_num + in_round p.place + p.i ≡ buff_len + c.i
  pub stored : m.stored_num + in_round c.place + c.i ≡ p.i
  pub items : (j : ℕ) → c.i ≤ j → j < p.i + accessed p.place → m.buff (j % buff_len) ≡ j
  pub seen_so_far : m.seen ≡ below (c.i + accessed c.place)
  pub reported_so_far : m.reported ≡ below_to_len (c.i + accessed c.place)
  pub producing : p.i + in_round p.place ≤ items_num

abbrev pub SystemInv : System → Type 0
SystemInv s = Inv s.mem s.producer s.consumer

start-Inv : (buff : ℕ → ℕ) → SystemInv (start buff)
unfolding below below_to_len
start-Inv buff = record {
  one_inside = omega arith;
  empties = omega arith;
  stored = omega arith;
  items = λ j l h. absurd (omega arith);
  seen_so_far = refl;
  reported_so_far = refl;
  producing = omega arith;
}

Produce-items :
    {m m' : Shared} {p p' c : Thread}
    → Produce m p m' p'
    → Inv m p c
    → (j : ℕ) → c.i ≤ j
    → j < p'.i + accessed p'.place
    → m'.buff (j % buff_len) ≡ j
Produce-items (Produce.take_empty l e) inv j lo hi = inv.items j lo (omega arith)
Produce-items (Produce.lock e) inv j lo hi = inv.items j lo (omega arith)
Produce-items (Produce.store {i}) inv j lo hi = elim (ℕ_discrete i j) [
  | yes e ↦ ground arith
  | no n ↦
      let before : j < i + 0 = omega (arith, n) in
      let apart : i % buff_len ≢ j % buff_len = omega (arith, inv.empties) in
      ground (arith, inv.items j lo before)
]
Produce-items Produce.unlock inv j lo hi = inv.items j lo (omega arith)
Produce-items Produce.post_stored inv j lo hi = inv.items j lo (omega arith)

Produce-counts :
    {m m' : Shared} {p p' c : Thread}
    → Produce m p m' p'
    → Inv m p c
    → (m'.mutex + critical p'.place + critical c.place ≡ 1)
      × (m'.empty_num + in_round p'.place + p'.i ≡ buff_len + c.i)
      × (m'.stored_num + in_round c.place + c.i ≡ p'.i)
      × (p'.i + in_round p'.place ≤ items_num)
Produce-counts (Produce.take_empty l e) inv = omega arith
Produce-counts (Produce.lock e) inv = omega arith
Produce-counts Produce.store inv = omega arith
Produce-counts Produce.unlock inv = omega arith
Produce-counts Produce.post_stored inv = omega arith

Produce-seen :
    {m m' : Shared} {p p' c : Thread}
    → Produce m p m' p'
    → Inv m p c
    → (m'.seen ≡ below (c.i + accessed c.place))
      × (m'.reported ≡ below_to_len (c.i + accessed c.place))
Produce-seen (Produce.take_empty l e) inv = (inv.seen_so_far, inv.reported_so_far)
Produce-seen (Produce.lock e) inv = (inv.seen_so_far, inv.reported_so_far)
Produce-seen Produce.store inv = (inv.seen_so_far, inv.reported_so_far)
Produce-seen Produce.unlock inv = (inv.seen_so_far, inv.reported_so_far)
Produce-seen Produce.post_stored inv = (inv.seen_so_far, inv.reported_so_far)

Produce-Inv : {m m' : Shared} {p p' c : Thread} → Produce m p m' p' → Inv m p c → Inv m' p' c
Produce-Inv mv inv = record {
  one_inside = (Produce-counts mv inv).0;
  empties = (Produce-counts mv inv).1;
  stored = (Produce-counts mv inv).2;
  items = Produce-items mv inv;
  seen_so_far = (Produce-seen mv inv).0;
  reported_so_far = (Produce-seen mv inv).1;
  producing = (Produce-counts mv inv).3;
}

Consume-items :
    {m m' : Shared} {p c c' : Thread}
    → Consume m c m' c'
    → Inv m p c
    → (j : ℕ) → c'.i ≤ j
    → j < p.i + accessed p.place
    → m'.buff (j % buff_len) ≡ j
Consume-items (Consume.take_stored l e) inv j lo hi = inv.items j lo hi
Consume-items (Consume.lock e) inv j lo hi = inv.items j lo hi
Consume-items Consume.check inv j lo hi = inv.items j lo hi
Consume-items Consume.unlock inv j lo hi = inv.items j lo hi
Consume-items Consume.post_empty inv j lo hi = inv.items j (omega arith) hi

Consume-counts :
    {m m' : Shared} {p c c' : Thread}
    → Consume m c m' c'
    → Inv m p c
    → (m'.mutex + critical p.place + critical c'.place ≡ 1)
      × (m'.empty_num + in_round p.place + p.i ≡ buff_len + c'.i)
      × (m'.stored_num + in_round c'.place + c'.i ≡ p.i)
Consume-counts (Consume.take_stored l e) inv = omega arith
Consume-counts (Consume.lock e) inv = omega arith
Consume-counts Consume.check inv = omega arith
Consume-counts Consume.unlock inv = omega arith
Consume-counts Consume.post_empty inv = omega arith

Consume-seen :
    {m m' : Shared} {p c c' : Thread}
    → Consume m c m' c'
    → Inv m p c
    → (m'.seen ≡ below (c'.i + accessed c'.place))
      × (m'.reported ≡ below_to_len (c'.i + accessed c'.place))
unfolding below below_to_len
Consume-seen (Consume.take_stored l e) inv = (inv.seen_so_far, inv.reported_so_far)
Consume-seen (Consume.lock e) inv = (inv.seen_so_far, inv.reported_so_far)
Consume-seen {m} (Consume.check {i}) inv =
    let found : m.buff (i % buff_len) ≡ i = inv.items i (omega arith) (omega (arith, inv.stored)) in
    let one : i + 1 ≡ suc i = omega arith in
    let none : i + 0 ≡ i = omega arith in
    let test : (i == i % buff_len) ≡ not (leb buff_len i) = ground arith in
    rw one (ground (arith, inv.seen_so_far, inv.reported_so_far))
Consume-seen Consume.unlock inv = (inv.seen_so_far, inv.reported_so_far)
Consume-seen (Consume.post_empty {i}) inv =
    let e : i + 1 ≡ i + 1 + 0 = omega arith in rw (← e) (inv.seen_so_far, inv.reported_so_far)

Consume-Inv : {m m' : Shared} {p c c' : Thread} → Consume m c m' c' → Inv m p c → Inv m' p c'
Consume-Inv mv inv = record {
  one_inside = (Consume-counts mv inv).0;
  empties = (Consume-counts mv inv).1;
  stored = (Consume-counts mv inv).2;
  items = Consume-items mv inv;
  seen_so_far = (Consume-seen mv inv).0;
  reported_so_far = (Consume-seen mv inv).1;
  producing = inv.producing;
}

pub Reach-Inv : {buff : ℕ → ℕ} {k : ℕ} {s : System} → Reach buff k s → SystemInv s
Reach-Inv {buff} here = start-Inv buff
Reach-Inv (next r (produce mv)) = Produce-Inv mv (Reach-Inv r)
Reach-Inv (next r (consume mv)) = Consume-Inv mv (Reach-Inv r)

-- However the two threads interleave, and whatever the ring held before, the consumer finds the
-- items 0, 1, 2, ... in this order, each once; the two are never at the ring together; and no more
-- than ten items are stored and not yet taken.
pub ring_in_order :
    {buff : ℕ → ℕ} {k : ℕ} {s : System}
    → Reach buff k s
    → (s.mem.seen ≡ below (s.consumer.i + accessed s.consumer.place))
      × (critical s.producer.place + critical s.consumer.place ≤ 1)
      × (s.mem.stored_num ≤ buff_len)
ring_in_order r =
    let inv = Reach-Inv r in
    (inv.seen_so_far, omega (arith, inv.one_inside), omega (arith, inv.stored, inv.empties))

-- The check of `consume` compares what it finds with the index of the place and not with the item:
-- though each item is right, it logs every one from the tenth on, and only those.
pub check_reports :
    {buff : ℕ → ℕ} {k : ℕ} {s : System}
    → Reach buff k s
    → s.mem.reported ≡ below_to_len (s.consumer.i + accessed s.consumer.place)
check_reports r = let inv = Reach-Inv r in inv.reported_so_far
