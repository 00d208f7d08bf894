-- ===== src/Semaphores/Many/Invariant.antt =====
-- The counts of the semaphores and of the threads at each call, and what is in the ring; how a producer
-- keeps them.
use unix_ipc_note.Base.{
  ℕ, zero, suc, ◌+◌, ◌%◌, ◌<◌, ◌≤◌, ◌≡◌, ◌≢◌, refl, ◌∙◌, List, [], ◌∷◌, ◌++◌, ℤ, pos, update, arith,
  ℕ_discrete,
}
use unix_ipc_note.Semaphores.{buff_len, items_num}
use unix_ipc_note.Semaphores.Many.{Producers, Consumers, Shared, Produce, start}

-- The producers that have found nothing left to produce.
abbrev pub finishing : Producers → ℕ
finishing p = p.last_stored + p.last_empty + p.last_mutex + p.ended

-- 0, 1, ..., n - 1
unfoldable pub first_items : ℕ → List ℤ
first_items zero = []
first_items (suc n) = first_items n ++ pos n ∷ []

pub record Inv (m : Shared) (p : Producers) (c : Consumers) : Type 0 where
  pub one_inside :
      m.mutex
        + (p.stored + p.last_stored + p.last_empty + p.last_mutex)
        + (c.taken + c.last_stored + c.last_mutex)
      ≡ 1
  pub empties :
      m.empty_num
        + (p.at_mutex + p.last_stored + p.last_empty)
        + (c.taken + c.posting)
        + m.total_produced
      ≡ buff_len + m.total_consumed
  pub stores :
      m.stored_num + (p.stored + p.posting) + (c.at_mutex + c.last_stored) + m.total_consumed
      ≡ m.total_produced + (p.last_empty + p.last_mutex + p.ended)
  pub last_produced : 0 < finishing p → m.total_produced ≡ items_num
  pub last_consumed : 0 < c.last_stored + c.last_mutex + c.ended → m.total_consumed ≡ items_num
  pub produced_within : m.total_produced ≤ items_num
  pub consumed_within : m.total_consumed ≤ m.total_produced
  pub items : (j : ℕ) → m.total_consumed ≤ j → j < m.total_produced → m.buff (j % buff_len) ≡ pos j
  pub in_order : m.out ≡ first_items m.total_consumed

pub start-Inv : (n k : ℕ) → let s = start n k in Inv s.mem s.producers s.consumers
unfolding first_items
start-Inv n k = record {
  one_inside = omega arith;
  empties = omega arith;
  stores = omega arith;
  last_produced = λ h. absurd (omega arith);
  last_consumed = λ h. absurd (omega arith);
  produced_within = omega arith;
  consumed_within = omega arith;
  items = λ j l h. absurd (omega arith);
  in_order = refl;
}

Produce-counts :
    {m m' : Shared} {p p' : Producers} {c : Consumers}
    → Produce m p m' p'
    → Inv m p c
    → (m'.mutex
          + (p'.stored + p'.last_stored + p'.last_empty + p'.last_mutex)
          + (c.taken + c.last_stored + c.last_mutex)
        ≡ 1)
      × (m'.empty_num
            + (p'.at_mutex + p'.last_stored + p'.last_empty)
            + (c.taken + c.posting)
            + m'.total_produced
          ≡ buff_len + m'.total_consumed)
      × (m'.stored_num + (p'.stored + p'.posting) + (c.at_mutex + c.last_stored) + m'.total_consumed
          ≡ m'.total_produced + (p'.last_empty + p'.last_mutex + p'.ended))
      × (m'.total_produced ≤ items_num)
      × (m'.total_consumed ≤ m'.total_produced)
Produce-counts (Produce.take_empty w e) inv = omega arith
Produce-counts (Produce.lock w e l) inv = omega arith
Produce-counts (Produce.lock_last w e l) inv = omega arith
Produce-counts (Produce.unlock w) inv = omega arith
Produce-counts (Produce.post_stored w) inv = omega arith
Produce-counts (Produce.post_last_stored w) inv = omega arith
Produce-counts (Produce.post_last_empty w) inv = omega arith
Produce-counts (Produce.unlock_last w) inv = omega arith

Produce-last :
    {m m' : Shared} {p p' : Producers} {c : Consumers}
    → Produce m p m' p'
    → Inv m p c
    → 0 < finishing p'
    → m'.total_produced ≡ items_num
Produce-last (Produce.take_empty w e) inv h = inv.last_produced h
Produce-last (Produce.lock w e l) inv h = absurd (omega (arith, inv.last_produced h))
Produce-last (Produce.lock_last w e l) inv h = omega (arith, inv.produced_within)
Produce-last (Produce.unlock w) inv h = inv.last_produced h
Produce-last (Produce.post_stored w) inv h = inv.last_produced h
Produce-last (Produce.post_last_stored w) inv h = inv.last_produced (omega arith)
Produce-last (Produce.post_last_empty w) inv h = inv.last_produced (omega arith)
Produce-last (Produce.unlock_last w) inv h = inv.last_produced (omega arith)

-- A producer at the mutex has a place of the ring that holds nothing.
store-items :
    (m : Shared) {p : Producers} {c : Consumers}
    → Inv m p c
    → 0 < p.at_mutex
    → (j : ℕ) → m.total_consumed ≤ j
    → j < m.total_produced + 1
    → update m.buff (m.total_produced % buff_len) (pos m.total_produced) (j % buff_len) ≡ pos j
store-items m inv w j lo hi = elim (ℕ_discrete m.total_produced j) [
  | yes e ↦ ground arith
  | no n ↦
      let before : j < m.total_produced = omega (arith, n) in
      let apart : m.total_produced % buff_len ≢ j % buff_len = omega (arith, n, inv.empties, w) in
      ground (arith, inv.items j lo before)
]

Produce-ring :
    {m m' : Shared} {p p' : Producers} {c : Consumers}
    → Produce m p m' p'
    → Inv m p c
    → ((j : ℕ) → m'.total_consumed ≤ j → j < m'.total_produced → m'.buff (j % buff_len) ≡ pos j)
      × (m'.out ≡ m.out)
      × (m'.total_consumed ≡ m.total_consumed)
Produce-ring (Produce.take_empty w e) inv = (inv.items, refl, refl)
Produce-ring {m} (Produce.lock w e l) inv = (store-items m inv w, refl, refl)
Produce-ring (Produce.lock_last w e l) inv = (inv.items, refl, refl)
Produce-ring (Produce.unlock w) inv = (inv.items, refl, refl)
Produce-ring (Produce.post_stored w) inv = (inv.items, refl, refl)
Produce-ring (Produce.post_last_stored w) inv = (inv.items, refl, refl)
Produce-ring (Produce.post_last_empty w) inv = (inv.items, refl, refl)
Produce-ring (Produce.unlock_last w) inv = (inv.items, refl, refl)

pub Produce-Inv :
    {m m' : Shared} {p p' : Producers} {c : Consumers} → Produce m p m' p' → Inv m p c → Inv m' p' c
Produce-Inv mv inv =
    let counts = Produce-counts mv inv in
    let ring = Produce-ring mv inv in
    record {
      one_inside = counts.0;
      empties = counts.1;
      stores = counts.2;
      last_produced = Produce-last mv inv;
      last_consumed = λ h. ring.2 ∙ inv.last_consumed h;
      produced_within = counts.3;
      consumed_within = counts.4;
      items = ring.0;
      in_order = rw ring.2 (ring.1 ∙ inv.in_order);
    }
