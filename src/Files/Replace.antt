-- ===== src/Files/Replace.antt =====
-- The loop of `file_map` against a substitution in one pass.
use mathlib.Core.Path.{subst}
use unix_ipc_note.Base.{
  ℕ, zero, suc, ◌+◌, ◌≤◌, ◌<◌, ◌≡◌, refl, ap, ◌∙◌, false, Option, none, some, List, [], ◌∷◌, ◌++◌,
  length, take, drop, length-drop, arith, Bool-cases, Option-cases, sym, inl, inr, ◌==◌,
  if◌then◌else◌,
}
use unix_ipc_note.Files.{str_replace, starts, one_later, strstr, replace_loop}

-- Every "123" before the first 0 becomes "zcq".
unfoldable pub substitute : List ℕ → List ℕ
substitute (a ∷ b ∷ c ∷ cs) =
    let behind = substitute cs in
    let next = substitute (b ∷ c ∷ cs) in
    if starts (a ∷ b ∷ c ∷ cs)
    then str_replace ++ behind
    else (if a == 0 then a ∷ b ∷ c ∷ cs else a ∷ next)
substitute cs = cs

-- What strstr finds, and what the substitution does there.
FoundFits : Option ℕ → List ℕ → Type 0
FoundFits none ptr = substitute ptr ≡ ptr
FoundFits (some k) ptr =
    (k + 3 ≤ length ptr)
    × (substitute ptr ≡ take k ptr ++ (str_replace ++ substitute (drop (k + 3) ptr)))

pub substitute-cons :
    (a b c : ℕ) (cs : List ℕ)
    → substitute (a ∷ b ∷ c ∷ cs) ≡ (
        if starts (a ∷ b ∷ c ∷ cs)
        then str_replace ++ substitute cs
        else (if a == 0 then a ∷ b ∷ c ∷ cs else a ∷ substitute (b ∷ c ∷ cs)))
unfolding substitute
substitute-cons a b c cs = refl

-- One byte that begins no occurrence and is no 0.
later-FoundFits :
    (o : Option ℕ) (a b c : ℕ) (cs : List ℕ)
    → starts (a ∷ b ∷ c ∷ cs) ≡ false
    → (a == 0) ≡ false
    → FoundFits o (b ∷ c ∷ cs)
    → FoundFits (one_later o) (a ∷ b ∷ c ∷ cs)
unfolding FoundFits
later-FoundFits none a b c cs other more h = rw (substitute-cons a b c cs, other, more, h) refl
later-FoundFits (some k) a b c cs other more h =
    let next : k + 1 ≡ suc k = omega arith in
    let next3 : suc k + 3 ≡ suc (k + 3) = omega arith in
    rw (next, next3)
      (omega (arith, h.0), rw (substitute-cons a b c cs, other, more) (ap (λ l. a ∷ l) (h.1)))

pub strstr-cons :
    (c : ℕ) (cs : List ℕ)
    → strstr (c ∷ cs)
      ≡ (if starts (c ∷ cs) then some 0 else (if c == 0 then none else one_later (strstr cs)))
unfolding strstr
strstr-cons c cs = refl

short-FoundFits :
    (a b : ℕ)
    → FoundFits (strstr []) []
      × FoundFits (strstr (a ∷ [])) (a ∷ [])
      × FoundFits (strstr (a ∷ b ∷ [])) (a ∷ b ∷ [])
unfolding FoundFits strstr substitute starts
short-FoundFits a b = (refl, ground arith, ground arith)

strstr-FoundFits : (ptr : List ℕ) → FoundFits (strstr ptr) ptr
unfolding FoundFits
strstr-FoundFits [] = (short-FoundFits 0 0).0
strstr-FoundFits (a ∷ []) = (short-FoundFits a 0).1
strstr-FoundFits (a ∷ b ∷ []) = (short-FoundFits a b).2
strstr-FoundFits (a ∷ b ∷ c ∷ cs) = elim (Bool-cases (starts (a ∷ b ∷ c ∷ cs))) [
  | inl e ↦ rw (strstr-cons a (b ∷ c ∷ cs), e) (omega arith, substitute-cons a b c cs ∙ rw e refl)
  | inr e ↦ elim (Bool-cases (a == 0)) [
    | inl z ↦ rw (strstr-cons a (b ∷ c ∷ cs), e, z) (substitute-cons a b c cs ∙ rw (e, z) refl)
    | inr z ↦
        rw (strstr-cons a (b ∷ c ∷ cs), e, z)
          (later-FoundFits (strstr (b ∷ c ∷ cs)) a b c cs e z (strstr-FoundFits (b ∷ c ∷ cs)))
  ]
]

-- With more fuel than bytes the loop ends, and has substituted.
pub replace_loop-substitute :
    (f : ℕ) (ptr : List ℕ) → length ptr < f → replace_loop f ptr ≡ some (substitute ptr)
unfolding replace_loop FoundFits
replace_loop-substitute zero ptr h = absurd (omega arith)
replace_loop-substitute (suc f) ptr h = elim (Option-cases (strstr ptr)) [
  | inl e ↦
      let same : FoundFits none ptr = subst (λ o. FoundFits o ptr) e (strstr-FoundFits ptr) in
      rw (e, replace_loop) (ap some (sym same))
  | inr (k, e) ↦
      let found : FoundFits (some k) ptr = subst (λ o. FoundFits o ptr) e (strstr-FoundFits ptr) in
      let shorter : length (drop (k + 3) ptr) < f =
        omega (arith, found.0, length-drop (k + 3) ptr) in
      rw (e, replace_loop, replace_loop-substitute f (drop (k + 3) ptr) shorter)
        (ap some (sym found.1))
]
