-- ===== src/Semaphores/Many/Turns.antt =====
-- Some thread can always go on, and all end.
use native.Mathlib.Decide.{dec_lt}
use mathlib.Core.Path.{subst}
use unix_ipc_note.Base.{ℕ, ◌+◌, ◌*◌, ◌<◌, ◌≤◌, ◌≡◌, ◌⊎◌, inl, inr, arith, ℕ_discrete}
use unix_ipc_note.Semaphores.{items_num}
use unix_ipc_note.Semaphores.Many.{
  Producers, Consumers, Shared, System, Produce, Consume, Step, produce, consume, Reach,
}
use unix_ipc_note.Semaphores.Many.Invariant.{Inv, first_items}
use unix_ipc_note.Semaphores.Many.Items.{SystemInv, Reach-Inv}
use unix_ipc_note.Semaphores.Many.Counted.{Reach-in, Reach-Passed}

abbrev pub Ended : ℕ → ℕ → System → Type 0
Ended n k s = (s.producers.ended ≡ n) × (s.consumers.ended ≡ k)

Ready : ℕ → ℕ → System → Type 0
Ready n k s = Ended n k s ⊎ ((t : System) × Step s t)

-- Every thread waits for a place or an item, or has ended.
abbrev pub Quiet : ℕ → ℕ → System → Type 0
Quiet n k s =
    (s.producers.at_slot + s.producers.ended ≡ n)
    × (s.consumers.at_slot + s.consumers.ended ≡ k)
    × (s.producers.at_mutex + s.producers.posting + s.consumers.at_mutex + s.consumers.posting ≡ 0)
    × (s.mem.mutex ≡ 1)

-- All items are consumed once a consumer has found none left.
some-Consumed :
    {m : Shared} {p : Producers} {c : Consumers}
    → Inv m p c
    → (c.ended ≡ 0) ⊎ (m.total_consumed ≡ items_num)
some-Consumed {c} inv = elim (ℕ_discrete c.ended 0) [
  | yes e ↦ inl e
  | no e ↦ inr (inv.last_consumed (omega (arith, e)))
]

none_left-stored :
    {n k : ℕ} (s : System)
    → 0 < n
    → SystemInv s
    → Quiet n k s
    → ¬ 0 < s.producers.at_slot
    → 0 < s.mem.stored_num
none_left-stored s some_n inv q a =
    let all : s.mem.total_produced ≡ items_num = inv.last_produced (omega (arith, q, a)) in
    omega (arith, all, q, a, inv.stores, inv.consumed_within)

Quiet-Ready : {n k : ℕ} (s : System) → 0 < n → 0 < k → SystemInv s → Quiet n k s → Ready n k s
unfolding Ready
Quiet-Ready s some_n some_k inv q = elim (dec_lt 0 s.producers.at_slot) [
  | yes a ↦ elim (dec_lt 0 s.mem.empty_num) [
    | yes b ↦ inr (_, produce (Produce.take_empty a b))
    | no b ↦
        let waiting : 0 < s.consumers.at_slot = omega (arith, b, q, inv, some-Consumed inv) in
        inr (_, consume (Consume.take_stored waiting (omega (arith, b, q, inv))))
  ]
  | no a ↦ elim (dec_lt 0 s.consumers.at_slot) [
    | yes b ↦ inr (_, consume (Consume.take_stored b (none_left-stored s some_n inv q a)))
    | no b ↦ inl (omega (arith, a, b, q), omega (arith, a, b, q))
  ]
]

-- No thread is between two calls under the mutex.
abbrev pub NoneInside : System → Type 0
NoneInside s =
    s.producers.stored
      + s.producers.last_stored
      + s.producers.last_empty
      + s.producers.last_mutex
      + (s.consumers.taken + s.consumers.last_stored + s.consumers.last_mutex)
    ≡ 0

-- A thread inside can go on.
inside-Ready : (s : System) → NoneInside s ⊎ ((t : System) × Step s t)
inside-Ready s = elim (dec_lt 0 s.producers.stored) [
  | yes w ↦ inr (_, produce (Produce.unlock w))
  | no a ↦ elim (dec_lt 0 s.producers.last_stored) [
    | yes w ↦ inr (_, produce (Produce.post_last_stored w))
    | no b ↦ elim (dec_lt 0 s.producers.last_empty) [
      | yes w ↦ inr (_, produce (Produce.post_last_empty w))
      | no c ↦ elim (dec_lt 0 s.producers.last_mutex) [
        | yes w ↦ inr (_, produce (Produce.unlock_last w))
        | no d ↦ elim (dec_lt 0 s.consumers.taken) [
          | yes w ↦ inr (_, consume (Consume.unlock w))
          | no e ↦ elim (dec_lt 0 s.consumers.last_stored) [
            | yes w ↦ inr (_, consume (Consume.post_last_stored w))
            | no f ↦ elim (dec_lt 0 s.consumers.last_mutex) [
              | yes w ↦ inr (_, consume (Consume.unlock_last w))
              | no g ↦ inl (omega (arith, a, b, c, d, e, f, g))
            ]
          ]
        ]
      ]
    ]
  ]
]

abbrev pub NoneAtMutex : System → Type 0
NoneAtMutex s =
    s.producers.at_mutex + s.producers.posting + s.consumers.at_mutex + s.consumers.posting ≡ 0

-- With the mutex free, a thread before it or behind it can go on.
mutex-Ready : (s : System) → 0 < s.mem.mutex → NoneAtMutex s ⊎ ((t : System) × Step s t)
mutex-Ready s free = elim (dec_lt 0 s.producers.at_mutex) [
  | yes w ↦ elim (dec_lt s.mem.total_produced items_num) [
    | yes l ↦ inr (_, produce (Produce.lock w free l))
    | no l ↦ inr (_, produce (Produce.lock_last w free (omega (arith, l))))
  ]
  | no a ↦ elim (dec_lt 0 s.consumers.at_mutex) [
    | yes w ↦ elim (dec_lt s.mem.total_consumed items_num) [
      | yes l ↦ inr (_, consume (Consume.lock w free l))
      | no l ↦ inr (_, consume (Consume.lock_last w free (omega (arith, l))))
    ]
    | no b ↦ elim (dec_lt 0 s.producers.posting) [
      | yes w ↦ inr (_, produce (Produce.post_stored w))
      | no c ↦ elim (dec_lt 0 s.consumers.posting) [
        | yes w ↦ inr (_, consume (Consume.post_empty w))
        | no d ↦ inl (omega (arith, a, b, c, d))
      ]
    ]
  ]
]

Reach-Ready : {n k i : ℕ} {s : System} → 0 < n → 0 < k → Reach n k i s → Ready n k s
unfolding Ready
Reach-Ready {s} some_n some_k r =
    let inv = Reach-Inv r in
    let threads = Reach-in r in
    elim (inside-Ready s) [
      | inr st ↦ inr st
      | inl a ↦ elim (mutex-Ready s (omega (arith, a, inv.one_inside))) [
        | inr st ↦ inr st
        | inl b ↦ Quiet-Ready s some_n some_k inv (omega (arith, a, b, threads, inv.one_inside))
      ]
    ]

-- With at least one producer and one consumer, every run is of at most 800 steps and five for each
-- producer and four for each consumer, and where no thread can go on, all of them have ended and all 100
-- items have been logged, in order. So the tokens that the last rounds post let every thread end, and no
-- two wait for each other.
pub all_end :
    {n k i : ℕ} {s : System}
    → 0 < n
    → 0 < k
    → Reach n k i s
    → (i ≤ 800 + 5 * n + 4 * k)
      × ((Ended n k s × (s.mem.out ≡ first_items items_num)) ⊎ ((t : System) × Step s t))
unfolding Ready
all_end {s} some_n some_k r =
    let inv = Reach-Inv r in
    (
      omega (arith, Reach-Passed r, Reach-in r, inv.produced_within, inv.consumed_within),
      elim (Reach-Ready some_n some_k r) [
        | inr st ↦ inr st
        | inl e ↦
            let all = inv.last_consumed (omega (arith, e, some_k)) in
            inl (e, subst (λ c. s.mem.out ≡ first_items c) all inv.in_order)
      ],
    )
