-- ===== src/Semaphores/Many/Items.antt =====
-- What the threads leave of the ring: each item from its store to its removal.
use mathlib.Core.Path.{subst, sym}
use unix_ipc_note.Base.{
  ℕ, suc, ◌+◌, ◌-◌, ◌%◌, ◌<◌, ◌≤◌, ◌≡◌, ◌≢◌, refl, ◌⊎◌, inl, inr, [], ◌∷◌, ◌++◌, pos, minus_one,
  update, arith, ℕ_discrete,
}
use unix_ipc_note.Semaphores.{buff_len, items_num}
use unix_ipc_note.Semaphores.Many.{
  Producers, Consumers, Shared, System, take_out, Consume, produce, consume, Reach, here, next,
}
use unix_ipc_note.Semaphores.Many.Invariant.{finishing, first_items, Inv, start-Inv, Produce-Inv}

-- What take_out does where an item is in the ring.
taken_out : Shared → Shared
taken_out m = record m {
  buff = update m.buff (m.total_consumed % buff_len) minus_one;
  total_consumed = m.total_consumed + 1;
  out = m.out ++ pos m.total_consumed ∷ [];
}

take_out-taken_out :
    (m : Shared)
    → m.total_consumed < m.total_produced
    → m.buff (m.total_consumed % buff_len) ≡ pos m.total_consumed
    → take_out m ≡ taken_out m
unfolding taken_out
take_out-taken_out m l e = rw e (ground (arith, l))

-- A consumer at the mutex finds an item, unless all have been consumed.
at_mutex-item :
    {m : Shared} {p : Producers} {c : Consumers}
    → Inv m p c
    → 0 < c.at_mutex
    → m.total_consumed < items_num
    → m.total_consumed < m.total_produced
at_mutex-item {m} {p} inv w l = elim (ℕ_discrete (finishing p) 0) [
  | yes e ↦ omega (arith, inv.stores, w, e)
  | no n ↦ omega (arith, inv.last_produced (omega (arith, n)), l)
]

pub take_out-totals :
    {m : Shared} {p : Producers} {c : Consumers}
    → Inv m p c
    → 0 < c.at_mutex
    → m.total_consumed < items_num
    → (e : ℕ)
    → ((take_out (record m { mutex = e })).total_consumed ≡ m.total_consumed + 1)
      × ((take_out (record m { mutex = e })).total_produced ≡ m.total_produced)
unfolding taken_out
take_out-totals {m} inv w l e =
    let found = at_mutex-item inv w l in
    let item = inv.items m.total_consumed (omega arith) found in
    rw (take_out-taken_out (record m { mutex = e }) found item) (refl, refl)

taken_out-Inv :
    (m : Shared) {p : Producers} {c : Consumers}
    → Inv m p c
    → 0 < c.at_mutex
    → 0 < m.mutex
    → m.total_consumed < m.total_produced
    → Inv
        (taken_out (record m { mutex = m.mutex - 1 }))
        p
        (record c { at_mutex = c.at_mutex - 1; taken = c.taken + 1 })
unfolding taken_out first_items
taken_out-Inv m inv w e l = record {
  one_inside = omega (arith, inv.one_inside);
  empties = omega (arith, inv.empties);
  stores = omega (arith, inv.stores);
  last_produced = inv.last_produced;
  last_consumed = λ h. absurd (omega (arith, inv.last_consumed h, inv.produced_within));
  produced_within = inv.produced_within;
  consumed_within = omega arith;
  items = λ j lo hi.
      let apart : m.total_consumed % buff_len ≢ j % buff_len = omega (arith, inv.empties) in
      ground (arith, inv.items j (omega arith) hi);
  in_order =
      let one : m.total_consumed + 1 ≡ suc m.total_consumed = omega arith in
      rw (one, inv.in_order) refl;
}

-- A step of a consumer that leaves the ring and the totals.
kept-Inv :
    (m : Shared) {p : Producers} {c : Consumers}
    → Inv m p c
    → (mutex empty_num stored_num : ℕ) (c' : Consumers)
    → mutex
        + (p.stored + p.last_stored + p.last_empty + p.last_mutex)
        + (c'.taken + c'.last_stored + c'.last_mutex)
      ≡ 1
    → empty_num
        + (p.at_mutex + p.last_stored + p.last_empty)
        + (c'.taken + c'.posting)
        + m.total_produced
      ≡ buff_len + m.total_consumed
    → stored_num + (p.stored + p.posting) + (c'.at_mutex + c'.last_stored) + m.total_consumed
      ≡ m.total_produced + (p.last_empty + p.last_mutex + p.ended)
    → (0 < c'.last_stored + c'.last_mutex + c'.ended → m.total_consumed ≡ items_num)
    → Inv (record m { mutex = mutex; empty_num = empty_num; stored_num = stored_num }) p c'
kept-Inv m inv mutex empty_num stored_num c' a b d h = record {
  one_inside = a;
  empties = b;
  stores = d;
  last_produced = inv.last_produced;
  last_consumed = h;
  produced_within = inv.produced_within;
  consumed_within = inv.consumed_within;
  items = inv.items;
  in_order = inv.in_order;
}

Consume-Inv :
    {m m' : Shared} {p : Producers} {c c' : Consumers} → Consume m c m' c' → Inv m p c → Inv m' p c'
Consume-Inv {m} {p} {c} (Consume.lock w e l) inv =
    let found = at_mutex-item inv w l in
    let item = inv.items m.total_consumed (omega arith) found in
    subst (λ m'. Inv m' p (record c { at_mutex = c.at_mutex - 1; taken = c.taken + 1 }))
      (sym (take_out-taken_out (record m { mutex = m.mutex - 1 }) found item))
      (taken_out-Inv m inv w e found)
Consume-Inv {m} (Consume.take_stored w e) inv =
    kept-Inv m inv _ _ _ _ (omega (arith, inv.one_inside)) (omega (arith, inv.empties))
      (omega (arith, inv.stores)) inv.last_consumed
Consume-Inv {m} (Consume.lock_last w e l) inv =
    kept-Inv m inv _ _ _ _ (omega (arith, inv.one_inside)) (omega (arith, inv.empties))
      (omega (arith, inv.stores)) (λ h. omega (arith, inv.consumed_within, inv.produced_within))
Consume-Inv {m} (Consume.unlock w) inv =
    kept-Inv m inv _ _ _ _ (omega (arith, inv.one_inside)) (omega (arith, inv.empties))
      (omega (arith, inv.stores)) inv.last_consumed
Consume-Inv {m} (Consume.post_empty w) inv =
    kept-Inv m inv _ _ _ _ (omega (arith, inv.one_inside)) (omega (arith, inv.empties))
      (omega (arith, inv.stores)) inv.last_consumed
Consume-Inv {m} (Consume.post_last_stored w) inv =
    kept-Inv m inv _ _ _ _ (omega (arith, inv.one_inside)) (omega (arith, inv.empties))
      (omega (arith, inv.stores)) (λ h. inv.last_consumed (omega arith))
Consume-Inv {m} (Consume.unlock_last w) inv =
    kept-Inv m inv _ _ _ _ (omega (arith, inv.one_inside)) (omega (arith, inv.empties))
      (omega (arith, inv.stores)) (λ h. inv.last_consumed (omega arith))

abbrev pub SystemInv : System → Type 0
SystemInv s = Inv s.mem s.producers s.consumers

pub Reach-Inv : {n k i : ℕ} {s : System} → Reach n k i s → SystemInv s
Reach-Inv {n} {k} here = start-Inv n k
Reach-Inv (next r (produce mv)) = Produce-Inv mv (Reach-Inv r)
Reach-Inv (next r (consume mv)) = Consume-Inv mv (Reach-Inv r)

-- However many producers and consumers there are and however they interleave, what the consumers have
-- logged is 0, 1, 2, ... in this order, each item once, up to the number consumed; no more is consumed
-- than produced, no more produced than 100, and no more than ten items are in the ring; and when a
-- consumer has ended, all 100 have been consumed.
pub all_in_order :
    {n k i : ℕ} {s : System}
    → Reach n k i s
    → (s.mem.out ≡ first_items s.mem.total_consumed)
      × (s.mem.total_consumed ≤ s.mem.total_produced)
      × (s.mem.total_produced ≤ items_num)
      × (s.mem.total_produced ≤ s.mem.total_consumed + buff_len)
      × ((s.consumers.ended ≡ 0) ⊎ (s.mem.total_consumed ≡ items_num))
all_in_order {s} r =
    let inv = Reach-Inv r in
    (
      inv.in_order,
      inv.consumed_within,
      inv.produced_within,
      omega (arith, inv.empties),
      elim (ℕ_discrete s.consumers.ended 0) [
        | yes e ↦ inl e
        | no e ↦ inr (inv.last_consumed (omega (arith, e)))
      ],
    )
