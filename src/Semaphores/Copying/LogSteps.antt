-- ===== src/Semaphores/Copying/LogSteps.antt =====
-- The consumer keeps the invariant when it looks at a slot.
use unix_ipc_note.Base.{
  ◌+◌, ◌-◌, ◌%◌, ◌<◌, ◌≤◌, ◌≡◌, ◌≢◌, refl, ap, sym, ◌∙◌, true, false, Bool-cases, inl, inr, [], ◌∷◌,
  ◌++◌, length, take, pos, update, int_eq, arith, ℕ_discrete,
}
use unix_ipc_note.Semaphores.{buff_len}
use unix_ipc_note.Semaphores.Copying.{Slot, end_of_file, Emptier, System, next_num, look_at}
use unix_ipc_note.Semaphores.Copying.Invariant.{
  length-end, take-next, untested, blank, result, marked, Inv,
}

module _ {s : System} where
  -- The slot that the consumer looks at holds a result that has been tested.
  look-found :
      s.emptier ≡ Emptier.looking
      → Inv s
      → (length s.out + untested s.filler < length s.readings)
        × (s.buff s.out_num ≡ marked (result s (length s.out)))
  look-found e inv =
      let behind : length s.out + untested s.filler < length s.readings =
        ground (arith, inv.stores) in
      (behind, rw inv.out_at (inv.ring (length s.out) (omega arith) behind))

  over-Inv :
      s.emptier ≡ Emptier.looking
      → int_eq (result s (length s.out)).n (pos 0) ≡ true
      → Inv s
      → Inv (record s { emptier = Emptier.over })
  over-Inv e z inv = record {
    empties = ground (arith, inv.empties);
    stores = ground (arith, inv.stores);
    in_at = inv.in_at;
    out_at = inv.out_at;
    ring = inv.ring;
    fresh = inv.fresh;
    no_mark = inv.no_mark;
    no_end = inv.no_end;
    stopped_left = inv.stopped_left;
    stopped_end = inv.stopped_end;
    logged = inv.logged;
    all_logged = λ h. z;
  }

  log-Inv :
      s.emptier ≡ Emptier.looking
      → Inv s
      → (slot : Slot) → slot ≡ result s (length s.out)
      → int_eq (result s (length s.out)).n (pos 0) ≡ false
      → Inv (record s {
        buff = update s.buff s.out_num (record slot { n = pos 0 });
        out = s.out ++ slot ∷ [];
        out_num = next_num s.out_num;
        emptier = Emptier.posting;
      })
  log-Inv e inv slot q zero_not =
      let longer = length-end blank slot s.out in
      let found = look-found e inv in
      let behind = found.0 in
      let room : length s.readings ≤ 10 + length s.out = omega (arith, inv.empties) in
      record {
        empties = ground (arith, longer, inv.empties);
        stores = ground (arith, longer, inv.stores);
        in_at = inv.in_at;
        out_at = ground (arith, longer, inv.out_at);
        ring = λ j lo hi.
            let apart : s.out_num ≢ j % buff_len =
              omega (arith, inv.out_at, room, longer, lo, hi) in
            let kept = inv.ring j (omega (arith, longer, lo)) hi in ground (arith, kept, apart);
        fresh = λ h.
            let at : s.in_num ≡ (length s.readings - 1) % buff_len = ground (arith, inv.in_at) in
            let last : length s.out + 1 < length s.readings = ground (arith, behind) in
            let apart : s.out_num ≢ s.in_num = omega (arith, at, inv.out_at, room, last) in
            let kept = inv.fresh h in ground (arith, kept, apart);
        no_mark = inv.no_mark;
        no_end = inv.no_end;
        stopped_left = λ h. elim (ℕ_discrete (length s.out) (length s.readings - 1)) [
          | yes e' ↦
              let clash : false ≡ true =
                sym zero_not ∙ ap (λ k. int_eq (result s k).n (pos 0)) e' ∙ inv.stopped_end h in
              absurd (ground (arith, clash))
          | no e' ↦ omega (arith, e', longer, inv.stopped_left h)
        ];
        stopped_end = inv.stopped_end;
        logged =
            let next = take-next blank blank s.readings (length s.out) (omega (arith, behind)) in
            rw longer (
              rw next (
                ap (λ l. l ++ slot ∷ []) inv.logged
                ∙ ap (λ v. take (length s.out) s.readings ++ v ∷ []) q));
        all_logged = λ h. absurd (ground (arith, h));
      }

  pub look-Inv : s.emptier ≡ Emptier.looking → Inv s → Inv (look_at s)
  look-Inv e inv =
      let found = look-found e inv in
      let plain = inv.no_mark (length s.out) (omega (arith, found.0)) in
      elim (Bool-cases (int_eq (result s (length s.out)).n (pos 0))) [
        | inl z ↦
            let ends : int_eq (s.buff s.out_num).n end_of_file ≡ true = rw (found.1, z) refl in
            rw ends (over-Inv e z inv)
        | inr z ↦
            let same : s.buff s.out_num ≡ result s (length s.out) = rw (found.1, z) refl in
            let goes_on : int_eq (s.buff s.out_num).n end_of_file ≡ false = rw (same, plain) refl in
            let filled : int_eq (s.buff s.out_num).n (pos 0) ≡ false = rw (same, z) refl in
            rw (goes_on, filled) (log-Inv e inv (s.buff s.out_num) same z)
      ]
