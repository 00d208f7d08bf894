-- ===== src/Clock/Texts.antt =====
-- What the texts are.
use unix_ipc_note.Base.{
  ℕ, zero, suc, ◌+◌, ◌/◌, ◌%◌, ◌≤◌, ◌≡◌, refl, ap, ◌∙◌, some, List, [], ◌∷◌, ◌++◌, length, take,
  drop, replicate, length-append, take-front, take-all, drop-front, sym, append_assoc, ltb, true,
  arith,
}
use unix_ipc_note.System.{returned, done}
use unix_ipc_note.Words.Strings.{NoZero, c_string-append, NoZero-append}
use unix_ipc_note.Clock.{digits, strcpy, print_usec, time_hms}

length-digits : (k n : ℕ) → length (digits k n) ≡ k
unfolding digits
length-digits zero n = refl
length-digits (suc k) n =
    omega
      (arith, length-append (digits k (n / 10)) ((b'0' + n % 10) ∷ []), length-digits k (n / 10))

digits-NoZero : (k n : ℕ) → NoZero (digits k n)
unfolding digits
digits-NoZero zero n = tt
digits-NoZero (suc k) n =
    NoZero-append (digits k (n / 10)) ((b'0' + n % 10) ∷ []) (digits-NoZero k (n / 10))
      (omega arith, tt)

take_of_length : (k : ℕ) (xs ys : List ℕ) → length xs ≡ k → take k (xs ++ ys) ≡ xs
take_of_length k xs ys e = ap (λ n. take n (xs ++ ys)) (sym e) ∙ take-front xs ys

drop_of_length : (k : ℕ) (xs ys : List ℕ) → length xs ≡ k → drop k (xs ++ ys) ≡ ys
drop_of_length k xs ys e = ap (λ n. drop n (xs ++ ys)) (sym e) ∙ drop-front xs ys

-- The microseconds behind the eight bytes of the time.
print_usec_lem :
    (usec : ℕ) (hms tail : List ℕ)
    → length hms ≡ 8
    → (rest : List ℕ) × (print_usec usec (hms ++ tail) ≡ (hms ++ b'.' ∷ digits 6 usec) ++ 0 ∷ rest)
unfolding print_usec
print_usec_lem usec hms tail eight =
    let point = b'.' ∷ digits 6 usec in
    let seven : length point ≡ 7 = omega (arith, length-digits 6 usec) in
    let whole : take 7 point ≡ point = ap (λ n. take n point) (sym seven) ∙ take-all point in
    let rest = drop (length (point ++ 0 ∷ [])) tail in
    (
      rest,
      rw (take_of_length 8 hms tail eight, drop_of_length 8 hms tail eight, whole)
          (ap (λ z. hms ++ z) (append_assoc point (0 ∷ []) rest)
            ∙ sym (append_assoc hms point (0 ∷ rest))),
    )

strcpy_lem :
    (hms year : List ℕ)
    → length hms ≡ 8
    → length year ≤ 6
    → (tail : List ℕ) × (strcpy 16 (replicate 16 0) (hms ++ year) ≡ some (hms ++ tail))
unfolding strcpy
strcpy_lem hms year eight six =
    let text = hms ++ year in
    let behind : List ℕ = drop (length (text ++ 0 ∷ [])) (replicate 16 0) in
    let fits : ltb (length text) 16 ≡ true = ground (arith, length-append hms year) in
    (
      (year ++ 0 ∷ []) ++ behind,
      rw fits (
          ap some (
            ap (λ z. z ++ behind) (append_assoc hms year (0 ∷ []))
            ∙ append_assoc hms (year ++ 0 ∷ []) behind)),
    )

-- For a text of ctime(3), eleven bytes of the date, eight of the time and at most six for the year,
-- `time_hms` writes nothing behind its array, and returns the time, a point, and the last six digits
-- of the microseconds.
pub time_hms_text :
    (date hms year : List ℕ) (usec : ℕ)
    → length date ≡ 11
    → length hms ≡ 8
    → length year ≤ 6
    → NoZero hms
    → time_hms (done usec) (date ++ (hms ++ year)) ≡ returned (some (hms ++ b'.' ∷ digits 6 usec))
unfolding time_hms
time_hms_text date hms year usec eleven eight six whole =
    let (tail, copied) = strcpy_lem hms year eight six in
    let (rest, printed) = print_usec_lem usec hms tail eight in
    let no_zero =
      NoZero-append hms (b'.' ∷ digits 6 usec) whole (omega arith, digits-NoZero 6 usec) in
    rw (drop_of_length 11 date (hms ++ year) eleven, copied, printed, time_hms)
      (ap (λ t. returned (some t)) (c_string-append (hms ++ b'.' ∷ digits 6 usec) rest no_zero))
