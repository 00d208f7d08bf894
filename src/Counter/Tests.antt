-- ===== src/Counter/Tests.antt =====
-- A run of parent and child, and the theorem there.
use unix_ipc_note.Base.{refl, arith}
use unix_ipc_note.Counter.{
  at_wait, storing, System, in_parent, in_child, take, load, store, post, Reach, here, next,
}

-- The parent has made one increment, and the child has read the number.
abbrev one_up : System
one_up = record {
  mem = record { mutex = 0; count = 1 };
  parent = record { place = at_wait; i = 1 };
  child = record { place = storing 1; i = 0 };
}

one_up-Reach : Reach one_up
one_up-Reach =
    let taken = next here (in_parent (take {e = 0} (omega arith) refl)) in
    let loaded = next taken (in_parent load) in
    let stored = next loaded (in_parent store) in
    let posted = next stored (in_parent post) in
    let held = next posted (in_child (take {e = 0} (omega arith) refl)) in next held (in_child load)
