-- ===== src/Semaphores/Many/Tests.antt =====
-- A run of two producers and a consumer, and the theorems there.
use unix_ipc_note.Base.{◌+◌, ◌*◌, ◌≤◌, ◌≡◌, refl, ◌⊎◌, [], ◌∷◌, pos, arith, ℕ_discrete}
use unix_ipc_note.Semaphores.{buff_len, items_num}
use unix_ipc_note.Semaphores.Many.{
  Produce, Consume, System, Step, produce, consume, Reach, here, next,
}
use unix_ipc_note.Semaphores.Many.Invariant.{first_items}
use unix_ipc_note.Semaphores.Many.Items.{all_in_order}
use unix_ipc_note.Semaphores.Many.Turns.{Ended, all_end}

-- One producer stores the first item, the other takes a place, and the consumer takes the item out.
abbrev taken-Reach : (s : System) × Reach 2 1 7 s
taken-Reach =
    let place = next here (produce (Produce.take_empty (omega arith) (omega arith))) in
    let locked = next place (produce (Produce.lock (omega arith) (omega arith) (omega arith))) in
    let unlocked = next locked (produce (Produce.unlock (omega arith))) in
    let posted = next unlocked (produce (Produce.post_stored (omega arith))) in
    let other = next posted (produce (Produce.take_empty (omega arith) (omega arith))) in
    let found = next other (consume (Consume.take_stored (omega arith) (omega arith))) in
    (_, next found (consume (Consume.lock (omega arith) (omega arith) (omega arith))))

first_item_out : taken-Reach.0.mem.out ≡ pos 0 ∷ []
unfolding ℕ_discrete
first_item_out = refl

all_in_order_example :
    let s = taken-Reach.0 in
    (s.mem.out ≡ first_items s.mem.total_consumed)
    × (s.mem.total_consumed ≤ s.mem.total_produced)
    × (s.mem.total_produced ≤ items_num)
    × (s.mem.total_produced ≤ s.mem.total_consumed + buff_len)
    × ((s.consumers.ended ≡ 0) ⊎ (s.mem.total_consumed ≡ items_num))
all_in_order_example = all_in_order (taken-Reach.1)

all_end_example :
    let s = taken-Reach.0 in
    (7 ≤ 800 + 5 * 2 + 4 * 1)
    × ((Ended 2 1 s × (s.mem.out ≡ first_items items_num)) ⊎ ((t : System) × Step s t))
all_end_example = all_end (omega arith) (omega arith) (taken-Reach.1)
