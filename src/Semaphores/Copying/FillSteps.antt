-- ===== src/Semaphores/Copying/FillSteps.antt =====
-- The producer keeps the invariant when it reads and when it tests what was read.
use unix_ipc_note.Base.{
  ◌+◌, ◌-◌, ◌%◌, ◌<◌, ◌≤◌, ◌≡◌, ◌≢◌, refl, sym, ◌∙◌, true, false, Bool-cases, inl, inr, [], ◌∷◌,
  ◌++◌, length, pos, update, int_eq, arith, ℕ_discrete,
}
use unix_ipc_note.UnixIo.{Reading}
use unix_ipc_note.Semaphores.{buff_len}
use unix_ipc_note.Semaphores.Copying.{end_of_file, Filler, System, next_num, slot_of, check}
use unix_ipc_note.Semaphores.Copying.Invariant.{
  get_or-before, get_or-end, length-end, take-end, blank, result, marked, Inv,
}

module _ {s : System} where
  -- Before Read nothing is at its end.
  pub read-Inv :
      (r : Reading)
      → s.filler ≡ Filler.reading
      → int_eq r.value end_of_file ≡ false
      → Inv s
      → Inv (record s {
        buff = update s.buff s.in_num (slot_of r);
        filler = Filler.checking;
        answers = r.rest;
        readings = s.readings ++ slot_of r ∷ [];
      })
  read-Inv r e n inv =
      let longer = length-end blank (slot_of r) s.readings in
      let before = get_or-before blank (slot_of r) s.readings in
      let last = get_or-end blank (slot_of r) s.readings in
      let room : length s.readings < 10 + length s.out = ground (arith, inv.empties) in
      let within : length s.out ≤ length s.readings = omega (arith, inv.stores) in
      let here : s.in_num ≡ length s.readings % buff_len = ground (arith, inv.in_at) in
      record {
        empties = ground (arith, longer, inv.empties);
        stores = ground (arith, longer, inv.stores);
        in_at = λ h. ground (arith, longer, here);
        out_at = inv.out_at;
        ring = λ j lo hi.
            let old : j < length s.readings = omega (arith, longer, hi) in
            let apart : s.in_num ≢ j % buff_len = omega (arith, here, room, lo, old) in
            let kept : s.buff (j % buff_len) ≡ marked (result s j) =
              inv.ring j lo (ground (arith, old)) in
            rw (before j old) (ground (arith, kept, apart));
        fresh = λ h.
            let one_less : length (s.readings ++ slot_of r ∷ []) - 1 ≡ length s.readings =
              omega (arith, longer) in
            rw (one_less, last) (ground arith);
        no_mark = λ j h. elim (ℕ_discrete j (length s.readings)) [
          | yes q ↦ rw (q, last) n
          | no q ↦
              let old : j < length s.readings = omega (arith, longer, h, q) in
              rw (before j old) (inv.no_mark j old)
        ];
        no_end = λ j h.
            let old : j < length s.readings = omega (arith, longer, h) in
            rw (before j old) (inv.no_end j (ground (arith, old)));
        stopped_left = λ h. absurd (ground (arith, h));
        stopped_end = λ h. absurd (ground (arith, h));
        logged = inv.logged ∙ sym (take-end blank (slot_of r) s.readings (length s.out) within);
        all_logged = λ h.
            let old : length s.out < length s.readings = ground (arith, inv.stores) in
            rw (before (length s.out) old) (inv.all_logged h);
      }

  -- The test behind Read, where it has returned 0, and where it has not.
  stop-Inv :
      s.filler ≡ Filler.checking
      → int_eq (s.buff s.in_num).n (pos 0) ≡ true
      → Inv s
      → Inv (record s {
        buff = update s.buff s.in_num (record (s.buff s.in_num) { n = end_of_file });
        filler = Filler.last_posting;
      })
  stop-Inv e z inv =
      let fresh = inv.fresh e in
      let here : s.in_num ≡ (length s.readings - 1) % buff_len = ground (arith, inv.in_at) in
      let room : length s.readings ≤ 10 + length s.out = ground (arith, inv.empties) in
      record {
        empties = ground (arith, inv.empties);
        stores = ground (arith, inv.stores);
        in_at = λ h. absurd (ground (arith, h));
        out_at = inv.out_at;
        ring = λ j lo hi. elim (ℕ_discrete j (length s.readings - 1)) [
          | yes q ↦ rw (q, ← fresh, z) (ground (arith, here))
          | no q ↦
              let old : j + 1 < length s.readings = omega (arith, q, hi) in
              let apart : s.in_num ≢ j % buff_len = omega (arith, here, room, lo, old) in
              let kept = inv.ring j lo (ground (arith, old)) in ground (arith, kept, apart)
        ];
        fresh = λ h. absurd (ground (arith, h));
        no_mark = inv.no_mark;
        no_end = λ j h. inv.no_end j (ground (arith, h));
        stopped_left = λ h. ground (arith, inv.stores);
        stopped_end = λ h. rw (← fresh) z;
        logged = inv.logged;
        all_logged = inv.all_logged;
      }

  go_on-Inv :
      s.filler ≡ Filler.checking
      → int_eq (s.buff s.in_num).n (pos 0) ≡ false
      → Inv s
      → Inv (record s { in_num = next_num s.in_num; filler = Filler.posting })
  go_on-Inv e z inv =
      let fresh = inv.fresh e in
      let here : s.in_num ≡ (length s.readings - 1) % buff_len = ground (arith, inv.in_at) in
      let some : 0 < length s.readings = ground (arith, inv.stores) in
      record {
        empties = ground (arith, inv.empties);
        stores = ground (arith, inv.stores);
        in_at = λ h. ground (arith, here, some);
        out_at = inv.out_at;
        ring = λ j lo hi. elim (ℕ_discrete j (length s.readings - 1)) [
          | yes q ↦ rw (q, ← here, ← fresh, z) refl
          | no q ↦ inv.ring j lo (ground (arith, q, hi))
        ];
        fresh = λ h. absurd (ground (arith, h));
        no_mark = inv.no_mark;
        no_end = λ j h. elim (ℕ_discrete j (length s.readings - 1)) [
          | yes q ↦ rw (q, ← fresh) z
          | no q ↦ inv.no_end j (ground (arith, q, h))
        ];
        stopped_left = λ h. absurd (ground (arith, h));
        stopped_end = λ h. absurd (ground (arith, h));
        logged = inv.logged;
        all_logged = inv.all_logged;
      }

  pub check-Inv : s.filler ≡ Filler.checking → Inv s → Inv (check s)
  check-Inv e inv = elim (Bool-cases (int_eq (s.buff s.in_num).n (pos 0))) [
    | inl z ↦ rw z (stop-Inv e z inv)
    | inr z ↦ rw z (go_on-Inv e z inv)
  ]
