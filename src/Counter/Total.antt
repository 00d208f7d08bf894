-- ===== src/Counter/Total.antt =====
-- No increment is lost, and neither process waits for ever.
use native.Mathlib.Decide.{dec_lt}
use unix_ipc_note.Base.{ℕ, ◌+◌, ◌<◌, ◌≤◌, ◌≡◌, refl, ◌⊎◌, inl, inr, arith}
use unix_ipc_note.Counter.{
  count_num, Place, at_wait, loading, storing, posting, Process, Shared, Increment, take, load,
  store, post, System, Step, in_parent, in_child, Reach, here, next,
}

-- 1 between the wait and the post.
abbrev pub critical : Place → ℕ
critical at_wait = 0
critical loading = 1
critical (storing v) = 1
critical posting = 1

-- 1 behind the store.
abbrev pub stored : Place → ℕ
stored at_wait = 0
stored loading = 0
stored (storing v) = 0
stored posting = 1

-- What was read is still there.
abbrev pub Fresh : Place → ℕ → Type 0
Fresh (storing v) count = v ≡ count
Fresh _ count = Unit

pub record Inv (m : Shared) (p q : Process) : Type 0 where
  pub one_inside : m.mutex + critical p.place + critical q.place ≡ 1
  pub counted : m.count ≡ p.i + stored p.place + (q.i + stored q.place)
  pub fresh : Fresh p.place m.count
  pub fresh_other : Fresh q.place m.count
  pub rounds : p.i + critical p.place ≤ count_num
  pub rounds_other : q.i + critical q.place ≤ count_num

swap : {m : Shared} {p q : Process} → Inv m p q → Inv m q p
swap inv = record {
  one_inside = omega (arith, inv.one_inside);
  counted = omega (arith, inv.counted);
  fresh = inv.fresh_other;
  fresh_other = inv.fresh;
  rounds = inv.rounds_other;
  rounds_other = inv.rounds;
}

Increment-counts :
    {m m' : Shared} {p p' q : Process}
    → Increment m p m' p'
    → Inv m p q
    → (m'.mutex + critical p'.place + critical q.place ≡ 1)
      × (m'.count ≡ p'.i + stored p'.place + (q.i + stored q.place))
      × Fresh p'.place m'.count
      × (p'.i + critical p'.place ≤ count_num)
Increment-counts (take l e) inv = ground (arith, inv.one_inside, inv.counted, inv.rounds)
Increment-counts load inv = ground (arith, inv.one_inside, inv.counted, inv.rounds)
Increment-counts store inv = ground (arith, inv.one_inside, inv.counted, inv.rounds, inv.fresh)
Increment-counts post inv = ground (arith, inv.one_inside, inv.counted, inv.rounds)

-- A process that has read the number is alone.
Fresh-kept :
    {m m' : Shared} {p p' : Process} (i : ℕ) (b : Place)
    → Increment m p m' p'
    → Inv m p (record { place = b; i = i })
    → Fresh b m'.count
Fresh-kept i b (take l e) inv = inv.fresh_other
Fresh-kept i b load inv = inv.fresh_other
Fresh-kept i (storing v) store inv = absurd (omega (arith, inv.one_inside))
Fresh-kept i b store inv = tt
Fresh-kept i b post inv = inv.fresh_other

Increment-Inv : {m m' : Shared} {p p' q : Process} → Increment m p m' p' → Inv m p q → Inv m' p' q
Increment-Inv {q} st inv =
    let counts = Increment-counts st inv in
    record {
      one_inside = counts.0;
      counted = counts.1;
      fresh = counts.2;
      fresh_other = Fresh-kept q.i q.place st inv;
      rounds = counts.3;
      rounds_other = inv.rounds_other;
    }

pub Reach-Inv : {s : System} → Reach s → Inv s.mem s.parent s.child
Reach-Inv here = record {
  one_inside = omega arith;
  counted = omega arith;
  fresh = tt;
  fresh_other = tt;
  rounds = omega arith;
  rounds_other = omega arith;
}
Reach-Inv (next r (in_parent st)) = Increment-Inv st (Reach-Inv r)
Reach-Inv (next r (in_child st)) = swap (Increment-Inv st (swap (Reach-Inv r)))

module _ (m : Shared) {k l : ℕ} where
  -- Some step is possible, or both are done.
  ready :
      (a b : Place)
      → Dec (k < count_num)
      → Dec (l < count_num)
      → Inv m (record { place = a; i = k }) (record { place = b; i = l })
      → ((t : System) × Step
            (record {
              mem = m;
              parent = record { place = a; i = k };
              child = record { place = b; i = l };
            })
            t)
        ⊎ ((a ≡ at_wait) × (b ≡ at_wait) × (m.count ≡ 20000))
  ready loading b d e inv = inl (_, in_parent load)
  ready (storing v) b d e inv = inl (_, in_parent store)
  ready posting b d e inv = inl (_, in_parent post)
  ready a loading d e inv = inl (_, in_child load)
  ready a (storing v) d e inv = inl (_, in_child store)
  ready a posting d e inv = inl (_, in_child post)
  ready at_wait at_wait (yes d) e inv =
      inl (_, in_parent (take {e = 0} d (omega (arith, inv.one_inside))))
  ready at_wait at_wait d (yes e) inv =
      inl (_, in_child (take {e = 0} e (omega (arith, inv.one_inside))))
  ready at_wait at_wait (no d) (no e) inv =
      inr (refl, refl, omega (arith, d, e, inv.counted, inv.rounds, inv.rounds_other))

-- In every reachable state the number is the sum of the increments that the two have stored, at most
-- one of them is between its wait and its post, and some step is possible or both are at their waits
-- and the number is 20000.
pub count_total :
    {s : System}
    → Reach s
    → (s.mem.count ≡ s.parent.i + stored s.parent.place + (s.child.i + stored s.child.place))
      × (critical s.parent.place + critical s.child.place ≤ 1)
      × (((t : System) × Step s t)
          ⊎ ((s.parent.place ≡ at_wait) × (s.child.place ≡ at_wait) × (s.mem.count ≡ 20000)))
count_total {s} r =
    let inv = Reach-Inv r in
    (
      inv.counted,
      omega (arith, inv.one_inside),
      ready s.mem s.parent.place s.child.place (dec_lt s.parent.i count_num)
          (dec_lt s.child.i count_num) inv,
    )
