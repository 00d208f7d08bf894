-- ===== src/Words/Numbers.antt =====
-- Decimal numbers in texts: strtol(3), as several programs of the repository use it, and its agreement
-- with std::to_string.
use unix_ipc_note.Base.{
  ℕ, zero, suc, ◌+◌, ◌-◌, ◌*◌, ◌/◌, ◌%◌, ◌≤◌, ◌<◌, ◌≡◌, refl, ap, sym, ◌∙◌, Bool, true, false, ◌&&◌,
  ◌||◌, List, [], ◌∷◌, ◌++◌, ℤ, pos, negsuc, ltb, leb, ◌==◌, if◌then◌else◌, arith, append_assoc,
  inl, inr, Bool-cases, ltb→lt,
}
use mathlib.Core.Path.{subst}
use unix_ipc_note.Words.Strings.{NoZero, NoZero-append}
use unix_ipc_note.FileLock.{to_string}

-- isspace(3)
abbrev pub is_space : ℕ → Bool
is_space c = c == b' ' || (leb 9 c && leb c 13)

unfoldable pub skip_space : List ℕ → List ℕ
skip_space [] = []
skip_space (c ∷ cs) = if is_space c then skip_space cs else c ∷ cs

abbrev pub is_digit : ℕ → Bool
is_digit c = leb b'0' c && leb c b'9'

-- The digits at the front, behind those that make `acc`, and what follows them.
unfoldable pub read_digits : ℕ → List ℕ → ℕ × List ℕ
read_digits acc [] = (acc, [])
read_digits acc (c ∷ cs) =
    let rest = read_digits (acc * 10 + (c - b'0')) cs in if is_digit c then rest else (acc, c ∷ cs)

abbrev pub long_max : ℕ
long_max = 9223372036854775807

-- A value out of the range of a long becomes LONG_MAX or LONG_MIN.
abbrev pub clamp_long : Bool → ℕ → ℤ
clamp_long false n = if leb n long_max then pos n else pos long_max
clamp_long true n =
    if n == 0 then pos 0 else if leb n (long_max + 1) then negsuc (n - 1) else negsuc long_max

-- The number with the sign taken off; with no digit, 0 and the text as it was.
abbrev pub unsigned : List ℕ → Bool → List ℕ → ℤ × List ℕ
unsigned text negative [] = (pos 0, text)
unsigned text negative (c ∷ cs) =
    let (n, rest) = read_digits 0 (c ∷ cs) in
    if is_digit c then (clamp_long negative n, rest) else (pos 0, text)

-- An optional sign.
abbrev pub signed : List ℕ → List ℕ → ℤ × List ℕ
signed text [] = (pos 0, text)
signed text (c ∷ cs) =
    if c == b'-'
    then unsigned text true cs
    else if c == b'+'
    then unsigned text false cs
    else unsigned text false (c ∷ cs)

-- strtol(text, &rest, 10): the value and what follows the number.
unfoldable pub strtol : List ℕ → ℤ × List ℕ
unfolding skip_space read_digits
strtol text = signed text (skip_space text)

-- 10 ^ f, in the form of the recursion.
unfoldable pub limit : ℕ → ℕ
limit zero = 1
limit (suc f) = 10 * limit f

digit-IsDigit : (d : ℕ) → d < 10 → is_digit (b'0' + d) ≡ true
digit-IsDigit d h = ground arith

read_digits-digit :
    (acc d : ℕ) (rest : List ℕ)
    → d < 10
    → read_digits acc ((b'0' + d) ∷ rest) ≡ read_digits (acc * 10 + d) rest
unfolding read_digits
read_digits-digit acc d rest h =
    let e : b'0' + d - b'0' ≡ d = omega arith in rw (digit-IsDigit d h, e) refl

to_string_none : (n : ℕ) → to_string zero n ≡ []
unfolding to_string
to_string_none n = refl

to_string_small : (f n : ℕ) → ltb n 10 ≡ true → to_string (suc f) n ≡ (b'0' + n) ∷ []
unfolding to_string
to_string_small f n e = rw e refl

to_string_large :
    (f n : ℕ)
    → ltb n 10 ≡ false
    → to_string (suc f) n ≡ to_string f (n / 10) ++ (b'0' + n % 10) ∷ []
unfolding to_string
to_string_large f n e = rw e refl

read_digits-to_string :
    (f n : ℕ) (rest : List ℕ)
    → n < limit f
    → read_digits 0 (to_string f n ++ rest) ≡ read_digits n rest
unfolding limit
read_digits-to_string zero n rest h =
    let e : 0 ≡ n = omega arith in
    ap (λ text. read_digits 0 (text ++ rest)) (to_string_none n) ∙ ap (λ k. read_digits k rest) e
read_digits-to_string (suc f) n rest h = elim (Bool-cases (ltb n 10)) [
  | inl e ↦
      rw (to_string_small f n e)
        (read_digits-digit 0 n rest (ltb→lt n 10 e) ∙ ap (λ k. read_digits k rest) (omega arith))
  | inr e ↦
      rw (to_string_large f n e, append_assoc (to_string f (n / 10)) ((b'0' + n % 10) ∷ []) rest)
        (read_digits-to_string f (n / 10) ((b'0' + n % 10) ∷ rest) (omega arith)
          ∙ read_digits-digit (n / 10) (n % 10) rest (omega arith)
          ∙ ap (λ k. read_digits k rest) (omega arith))
]

-- The first digit.
to_string-first :
    (f n : ℕ) → (c : ℕ) × (cs : List ℕ) × (to_string (suc f) n ≡ c ∷ cs) × (is_digit c ≡ true)
to_string-first zero n = elim (Bool-cases (ltb n 10)) [
  | inl e ↦ (b'0' + n, [], to_string_small zero n e, digit-IsDigit n (ltb→lt n 10 e))
  | inr e ↦ (
    b'0' + n % 10,
    [],
    to_string_large zero n e ∙ ap (λ text. text ++ (b'0' + n % 10) ∷ []) (to_string_none (n / 10)),
    digit-IsDigit (n % 10) (omega arith),
  )
]
to_string-first (suc f) n = elim (Bool-cases (ltb n 10)) [
  | inl e ↦ (b'0' + n, [], to_string_small (suc f) n e, digit-IsDigit n (ltb→lt n 10 e))
  | inr e ↦
      let (c, cs, e', d) = to_string-first f (n / 10) in
      (
        c,
        cs ++ (b'0' + n % 10) ∷ [],
        to_string_large (suc f) n e ∙ ap (λ text. text ++ (b'0' + n % 10) ∷ []) e',
        d,
      )
]

-- The text does not start with a digit.
abbrev pub Apart : List ℕ → Type 0
Apart [] = Unit
Apart (c ∷ cs) = is_digit c ≡ false

read_digits-Apart : (acc : ℕ) (rest : List ℕ) → Apart rest → read_digits acc rest ≡ (acc, rest)
unfolding read_digits
read_digits-Apart acc [] h = refl
read_digits-Apart acc (c ∷ cs) h = rw h refl

strtol-first :
    (c : ℕ) (cs : List ℕ)
    → is_digit c ≡ true
    → strtol (c ∷ cs) ≡ (clamp_long false (read_digits 0 (c ∷ cs)).0, (read_digits 0 (c ∷ cs)).1)
unfolding strtol
strtol-first c cs d = ground arith

-- A number that std::to_string has written is read back, whatever follows that is no digit.
pub strtol-to_string :
    (f n : ℕ) (rest : List ℕ)
    → n < limit (suc f)
    → n ≤ long_max
    → Apart rest
    → strtol (to_string (suc f) n ++ rest) ≡ (pos n, rest)
strtol-to_string f n rest small in_range apart =
    let (c, cs, e, d) = to_string-first f n in
    let digits : read_digits 0 (c ∷ (cs ++ rest)) ≡ (n, rest) =
      ap (λ text. read_digits 0 (text ++ rest)) (sym e)
      ∙ read_digits-to_string (suc f) n rest small
      ∙ read_digits-Apart n rest apart in
    ap (λ text. strtol (text ++ rest)) e
    ∙ strtol-first c (cs ++ rest) d
    ∙ ap (λ r. (clamp_long false r.0, r.1)) digits
    ∙ ground arith

pub to_string-NoZero : (f n : ℕ) → NoZero (to_string f n)
to_string-NoZero zero n = subst NoZero (sym (to_string_none n)) tt
to_string-NoZero (suc f) n = elim (Bool-cases (ltb n 10)) [
  | inl e ↦ subst NoZero (sym (to_string_small f n e)) (omega arith, tt)
  | inr e ↦ subst NoZero (sym (to_string_large f n e)) (
      NoZero-append (to_string f (n / 10)) ((b'0' + n % 10) ∷ []) (to_string-NoZero f (n / 10))
        (omega arith, tt))
]
