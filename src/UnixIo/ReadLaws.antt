-- ===== src/UnixIo/ReadLaws.antt =====
-- `Read`: what arrives in the buffer, and what each error leads to.
use unix_ipc_note.Base.{
  true, get_or-last, set-last, ltb, ℕ, zero, suc, ◌+◌, ◌-◌, ◌<◌, ◌≡◌, refl, List, [], ◌∷◌, ◌++◌,
  length, drop, replicate, ℤ, pos, ◌∙◌, ◌⊎◌, minus_one, ap, arith, ◌==◌, if◌then◌else◌, Bool-cases,
  inl, inr,
}
use unix_ipc_note.System.{
  eintr, eagain, econnreset, echild, other, Outcome, returned, exited, blocked, ReadAnswer, got,
  read_failed,
}
use unix_ipc_note.UnixIo.{Reading, Read, newline, trim_newline, overlay, try_again}

-- A text less its final newline; a newline that stands alone stays.
unfoldable pub chomp : List ℕ → List ℕ
chomp [] = []
chomp (c ∷ []) = c ∷ []
chomp (c ∷ d ∷ []) = if d == newline then c ∷ [] else c ∷ d ∷ []
chomp (c ∷ d ∷ e ∷ r) = c ∷ chomp (d ∷ e ∷ r)

-- Interruptions by signals, `k` of them.
abbrev pub interrupted : ℕ → List ReadAnswer → List ReadAnswer
interrupted zero es = es
interrupted (suc k) es = read_failed eintr ∷ interrupted k es

-- Interruptions do not show in what `Read` returns.
pub Read-interrupted :
    (size mode k : ℕ) (es : List ReadAnswer) → Read size mode (interrupted k es) ≡ Read size mode es
unfolding Read
Read-interrupted size mode zero es = refl
Read-interrupted size mode (suc k) es = Read-interrupted size mode k es

pub drop-replicate : (n m : ℕ) → drop n (replicate {A = ℕ} m 0) ≡ replicate {A = ℕ} (m - n) 0
drop-replicate zero m = let e : m ≡ m - 0 = omega arith in ap (λ k. replicate {A = ℕ} k 0) e
drop-replicate (suc n) zero =
    let e : 0 ≡ 0 - suc n = omega arith in ap (λ k. replicate {A = ℕ} k 0) e
drop-replicate (suc n) (suc m) =
    let e : m - n ≡ suc m - suc n = omega arith in
    drop-replicate n m ∙ ap (λ k. replicate {A = ℕ} k 0) e

-- How many bytes `chomp` takes off.
pub cut : List ℕ → ℕ
cut [] = 0
cut (c ∷ []) = 0
cut (c ∷ d ∷ []) = if d == newline then 1 else 0
cut (c ∷ d ∷ e ∷ r) = cut (d ∷ e ∷ r)

pub length-chomp : (bs : List ℕ) → length (chomp bs) + cut bs ≡ length bs
unfolding chomp cut
length-chomp [] = refl
length-chomp (c ∷ []) = refl
length-chomp (c ∷ d ∷ []) = ground arith
length-chomp (c ∷ d ∷ e ∷ r) = omega (arith, length-chomp (d ∷ e ∷ r))

-- With three bytes or more the test and the write concern the bytes behind the first.
trim-cons :
    (b n : ℕ) (xs : List ℕ)
    → trim_newline 1 (suc (suc (suc n))) (b ∷ xs)
      ≡ (suc (trim_newline 1 (suc (suc n)) xs).0, b ∷ (trim_newline 1 (suc (suc n)) xs).1)
unfolding trim_newline
trim-cons b n xs =
    let e : suc (suc (suc n)) - 1 ≡ suc (suc n) = omega arith in
    let e' : suc (suc n) - 1 ≡ suc n = omega arith in rw (e, e') (ground arith)

pub trim-chomp :
    (b : ℕ) (bs : List ℕ) (m : ℕ)
    → trim_newline 1 (length (b ∷ bs)) ((b ∷ bs) ++ replicate m 0)
      ≡ (length (chomp (b ∷ bs)), chomp (b ∷ bs) ++ replicate (cut (b ∷ bs) + m) 0)
unfolding trim_newline chomp cut
trim-chomp b [] m = ground arith
trim-chomp b (c ∷ []) m = elim (Bool-cases (c == newline)) [
  | inl e ↦ rw e (let e' : suc m ≡ 1 + m = omega arith in rw (← e'))
  | inr e ↦ rw e (let e' : m ≡ 0 + m = omega arith in rw (← e'))
]
trim-chomp b (c ∷ d ∷ r) m =
    rw (trim-cons b (length r) (c ∷ d ∷ (r ++ replicate m 0)), trim-chomp c (d ∷ r) m) refl

-- The test for a newline at place n - 1, in general.
pub trim-at :
    (n c : ℕ) (before tail : List ℕ)
    → 1 < n
    → n ≡ length before + 1
    → trim_newline 1 n (before ++ c ∷ tail)
      ≡ (if c == newline then n - 1 else n, before ++ (if c == newline then 0 else c) ∷ tail)
unfolding trim_newline
trim-at n c before tail h e =
    let last : n - 1 ≡ length before = omega arith in
    let more : ltb 1 n ≡ true = ground arith in
    elim (Bool-cases (c == newline)) [
      | inl e' ↦ rw (more, last, get_or-last before tail c, e', set-last before tail c 0) refl
      | inr e' ↦ rw (more, last, get_or-last before tail c, e') refl
    ]

-- A text that is not empty and shorter than the buffer, read in mode 1 after any number of interruptions: `Read` returns its length and leaves it in
-- the buffer, one final newline taken off, with zeros from there to the end of the buffer.
pub Read_text :
    (size k b : ℕ) (bs : List ℕ) (es : List ReadAnswer)
    → length (b ∷ bs) < size
    → let text = chomp (b ∷ bs) in
      Read size 1 (interrupted k (got (b ∷ bs) ∷ es))
      ≡ returned (record {
        value = pos (length text);
        buffer = text ++ replicate (size - length text) 0;
        rest = es;
      })
unfolding Read
Read_text size k b bs es fits =
    Read-interrupted size 1 k (got (b ∷ bs) ∷ es)
    ∙ rw (drop-replicate (length (b ∷ bs)) size, trim-chomp b bs (size - length (b ∷ bs)), pad) refl
  where
    pad : cut (b ∷ bs) + (size - length (b ∷ bs)) ≡ size - length (chomp (b ∷ bs))
    pad = omega (arith, length-chomp (b ∷ bs))

-- With mode 0 nothing is taken off.
pub Read_bytes :
    (size b : ℕ) (bs : List ℕ) (es : List ReadAnswer)
    → Read size 0 (got (b ∷ bs) ∷ es)
      ≡ returned (record {
        value = pos (length (b ∷ bs));
        buffer = overlay (b ∷ bs) (replicate size 0);
        rest = es;
      })
unfolding Read trim_newline
Read_bytes size b bs es = refl

-- `Read` comes back with a value and a cleared buffer.
abbrev pub cleared : ℕ → ℤ → List ReadAnswer → Outcome Reading
cleared size v es = returned (record { value = v; buffer = replicate size 0; rest = es })

-- What each error leads to when it ends the retries, and what the end of the file gives: the value
-- -1234, 0 or -1 by exit; the buffer is all zeros wherever `Read` returns.
pub Read_errors :
    (size mode k : ℕ) (es : List ReadAnswer)
    → (Read size mode (interrupted k (got [] ∷ es)) ≡ cleared size (pos 0) es)
      × (Read size mode (interrupted k (read_failed eagain ∷ es)) ≡ cleared size try_again es)
      × (Read size mode (interrupted k (read_failed econnreset ∷ es)) ≡ cleared size (pos 0) es)
      × (Read size mode (interrupted k (read_failed echild ∷ es)) ≡ cleared size (pos 0) es)
      × ((n : ℕ) → Read size mode (interrupted k (read_failed (other n) ∷ es)) ≡ exited minus_one)
unfolding Read
Read_errors size mode k es = (
  Read-interrupted size mode k (got [] ∷ es),
  Read-interrupted size mode k (read_failed eagain ∷ es),
  Read-interrupted size mode k (read_failed econnreset ∷ es),
  Read-interrupted size mode k (read_failed echild ∷ es),
  λ n. Read-interrupted size mode k (read_failed (other n) ∷ es),
)

-- The length of what arrived stays positive.
pub trim_newline_positive : (mode n : ℕ) (buf : List ℕ) → 0 < (trim_newline mode (suc n) buf).0
unfolding trim_newline
trim_newline_positive mode n buf = ground arith

pub trim_newline_zero : (mode : ℕ) (buf : List ℕ) → trim_newline mode 0 buf ≡ (0, buf)
unfolding trim_newline
trim_newline_zero mode buf = ground arith

-- A value that is not negative, or -1234, where `Read` returns.
unfoldable pub HasCount : Outcome Reading → Type 0
HasCount (returned r) = ((n : ℕ) × (r.value ≡ pos n)) ⊎ (r.value ≡ try_again)
HasCount (exited v) = Unit
HasCount blocked = Unit

pub Read-HasCount : (size mode : ℕ) (es : List ReadAnswer) → HasCount (Read size mode es)
unfolding HasCount Read
Read-HasCount size mode [] = tt
Read-HasCount size mode (got [] ∷ es) = inl (0, refl)
Read-HasCount size mode (got (b ∷ bs) ∷ es) = inl (_, refl)
Read-HasCount size mode (read_failed eagain ∷ es) = inr refl
Read-HasCount size mode (read_failed eintr ∷ es) = Read-HasCount size mode es
Read-HasCount size mode (read_failed econnreset ∷ es) = inl (0, refl)
Read-HasCount size mode (read_failed echild ∷ es) = inl (0, refl)
Read-HasCount size mode (read_failed _ ∷ es) = tt
