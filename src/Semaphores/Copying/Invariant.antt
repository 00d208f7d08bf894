-- ===== src/Semaphores/Copying/Invariant.antt =====
-- The numbers of slots at each call and what each holds, and the steps that leave the ring.
use unix_ipc_note.Base.{
  ℕ, zero, suc, ◌+◌, ◌-◌, ◌%◌, ◌<◌, ◌≤◌, ◌≡◌, refl, ap, Bool, true, false, List, [], ◌∷◌, ◌++◌,
  length, take, get_or, pos, int_eq, if◌then◌else◌, arith,
}
use unix_ipc_note.System.{ReadAnswer}
use unix_ipc_note.Semaphores.{buff_len}
use unix_ipc_note.Semaphores.Copying.{Slot, end_of_file, Filler, Emptier, System, start}

module _ {A : Type 0} (d x : A) where
  pub get_or-before :
      (xs : List A) (j : ℕ) → j < length xs → get_or (xs ++ x ∷ []) j d ≡ get_or xs j d
  get_or-before [] j h = absurd (omega arith)
  get_or-before (y ∷ xs) zero h = refl
  get_or-before (y ∷ xs) (suc j) h = get_or-before xs j (omega arith)

  pub get_or-end : (xs : List A) → get_or (xs ++ x ∷ []) (length xs) d ≡ x
  get_or-end [] = refl
  get_or-end (y ∷ xs) = get_or-end xs

  pub length-end : (xs : List A) → length (xs ++ x ∷ []) ≡ length xs + 1
  length-end [] = refl
  length-end (y ∷ xs) = ground (arith, length-end xs)

  pub take-end : (xs : List A) (k : ℕ) → k ≤ length xs → take k (xs ++ x ∷ []) ≡ take k xs
  take-end xs zero h = refl
  take-end [] (suc k) h = absurd (omega arith)
  take-end (y ∷ xs) (suc k) h = ap (λ l. y ∷ l) (take-end xs k (omega arith))

  pub take-next :
      (xs : List A) (k : ℕ) → k < length xs → take (k + 1) xs ≡ take k xs ++ get_or xs k d ∷ []
  take-next [] k h = absurd (omega arith)
  take-next (y ∷ xs) zero h = refl
  take-next (y ∷ xs) (suc k) h =
      let e : suc k + 1 ≡ suc (k + 1) = omega arith in
      rw e (ap (λ l. y ∷ l) (take-next xs k (omega arith)))

-- 1 where the slot is not yet filled, is not yet tested, is tested and not posted, or may be the end.
abbrev pub unread : Filler → ℕ
unread Filler.reading = 1
unread _ = 0

abbrev pub untested : Filler → ℕ
untested Filler.checking = 1
untested _ = 0

abbrev pub unposted : Filler → ℕ
unposted Filler.checking = 1
unposted Filler.posting = 1
unposted Filler.last_posting = 1
unposted _ = 0

abbrev pub ending : Filler → ℕ
ending Filler.checking = 1
ending Filler.last_posting = 1
ending Filler.over = 1
ending _ = 0

abbrev pub stopped : Filler → Bool
stopped Filler.last_posting = true
stopped Filler.over = true
stopped _ = false

abbrev pub has_slot : Emptier → ℕ
has_slot Emptier.looking = 1
has_slot Emptier.over = 1
has_slot _ = 0

abbrev pub unreturned : Emptier → ℕ
unreturned Emptier.posting = 1
unreturned _ = 0

abbrev pub blank : Slot
blank = record { n = pos 0; bytes = [] }

-- The result number j of Read.
abbrev pub result : System → ℕ → Slot
result s j = get_or s.readings j blank

-- A result as the test behind Read leaves it.
abbrev pub marked : Slot → Slot
marked slot = if int_eq slot.n (pos 0) then record slot { n = end_of_file } else slot

pub record Inv (s : System) : Type 0 where
  pub empties :
      s.empty_num + unread s.filler + unreturned s.emptier + length s.readings
      ≡ buff_len + length s.out
  pub stores :
      s.stored_num + unposted s.filler + has_slot s.emptier + length s.out ≡ length s.readings
  pub in_at :
      stopped s.filler ≡ false → s.in_num ≡ (length s.readings - untested s.filler) % buff_len
  pub out_at : s.out_num ≡ length s.out % buff_len
  pub ring :
      (j : ℕ)
      → length s.out ≤ j
      → j + untested s.filler < length s.readings
      → s.buff (j % buff_len) ≡ marked (result s j)
  pub fresh : s.filler ≡ Filler.checking → s.buff s.in_num ≡ result s (length s.readings - 1)
  pub no_mark : (j : ℕ) → j < length s.readings → int_eq (result s j).n end_of_file ≡ false
  pub no_end :
      (j : ℕ) → j + ending s.filler < length s.readings → int_eq (result s j).n (pos 0) ≡ false
  pub stopped_left : stopped s.filler ≡ true → length s.out < length s.readings
  pub stopped_end :
      stopped s.filler ≡ true → int_eq (result s (length s.readings - 1)).n (pos 0) ≡ true
  pub logged : s.out ≡ take (length s.out) s.readings
  pub all_logged : s.emptier ≡ Emptier.over → int_eq (result s (length s.out)).n (pos 0) ≡ true

pub start-Inv : (es : List ReadAnswer) → Inv (start es)
start-Inv es = record {
  empties = omega arith;
  stores = omega arith;
  in_at = λ h. omega arith;
  out_at = omega arith;
  ring = λ j l h. absurd (omega arith);
  fresh = λ h. ground arith;
  no_mark = λ j h. absurd (omega arith);
  no_end = λ j h. absurd (omega arith);
  stopped_left = λ h. absurd (ground (arith, h));
  stopped_end = λ h. absurd (ground (arith, h));
  logged = refl;
  all_logged = λ h. absurd (ground (arith, h));
}

module _ {s : System} where
  pub wait_empty-Inv :
      s.filler ≡ Filler.waiting
      → 0 < s.empty_num
      → Inv s
      → Inv (record s { empty_num = s.empty_num - 1; filler = Filler.reading })
  wait_empty-Inv e l inv = ground arith

  pub wait_stored-Inv :
      s.emptier ≡ Emptier.waiting
      → 0 < s.stored_num
      → Inv s
      → Inv (record s { stored_num = s.stored_num - 1; emptier = Emptier.looking })
  wait_stored-Inv e l inv = ground arith

  pub post_stored-Inv :
      s.filler ≡ Filler.posting
      → Inv s
      → Inv (record s { stored_num = s.stored_num + 1; filler = Filler.waiting })
  post_stored-Inv e inv = ground arith

  pub post_last-Inv :
      s.filler ≡ Filler.last_posting
      → Inv s
      → Inv (record s { stored_num = s.stored_num + 1; filler = Filler.over })
  post_last-Inv e inv = ground arith

  pub post_empty-Inv :
      s.emptier ≡ Emptier.posting
      → Inv s
      → Inv (record s { empty_num = s.empty_num + 1; emptier = Emptier.waiting })
  post_empty-Inv e inv = ground arith
