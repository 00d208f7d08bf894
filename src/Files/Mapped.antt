-- ===== src/Files/Mapped.antt =====
-- What `file_map` leaves in a file.
use unix_ipc_note.Base.{
  Option, ℕ, ◌+◌, ◌-◌, ◌%◌, ◌<◌, ◌≡◌, refl, ◌≢◌, ap, ◌∙◌, true, some, List, [], ◌∷◌, ◌++◌, length,
  take, replicate, replicate-pos, take-front, arith,
}
use unix_ipc_note.Words.Strings.{NoZero}
use unix_ipc_note.Files.{starts, page_size, mapping, has_zero, file_map}
use unix_ipc_note.Files.Replace.{substitute, substitute-cons, replace_loop-substitute}

-- The substitution stops at a 0.
substitute_zero : (r : List ℕ) → substitute (0 ∷ r) ≡ 0 ∷ r
unfolding substitute starts
substitute_zero [] = refl
substitute_zero (x ∷ []) = refl
substitute_zero (x ∷ y ∷ r) = refl

substitute_one : (a : ℕ) (r : List ℕ) → a ≢ 0 → substitute (a ∷ 0 ∷ r) ≡ a ∷ 0 ∷ r
unfolding substitute starts
substitute_one a [] h = refl
substitute_one a (x ∷ []) h = ground arith
substitute_one a (x ∷ y ∷ r) h = ground arith

substitute_two : (a b : ℕ) (r : List ℕ) → a ≢ 0 → b ≢ 0 → substitute (a ∷ b ∷ 0 ∷ r) ≡ a ∷ b ∷ 0 ∷ r
unfolding starts
substitute_two a b r h k = substitute-cons a b 0 r ∙ ground (arith, substitute_one b r k)

substitute_short :
    (a b : ℕ)
    → (substitute [] ≡ []) × (substitute (a ∷ []) ≡ a ∷ []) × (substitute (a ∷ b ∷ []) ≡ a ∷ b ∷ [])
unfolding substitute
substitute_short a b = (refl, refl, refl)

-- What stands behind a 0 is not looked at.
starts-append :
    (a b c : ℕ) (cs r : List ℕ) → starts (a ∷ b ∷ c ∷ (cs ++ 0 ∷ r)) ≡ starts (a ∷ b ∷ c ∷ cs)
unfolding starts
starts-append a b c cs r = refl

substitute-append :
    (file r : List ℕ) → NoZero file → substitute (file ++ 0 ∷ r) ≡ substitute file ++ 0 ∷ r
substitute-append [] r h = rw ((substitute_short 0 0).0) (substitute_zero r)
substitute-append (a ∷ []) r h = rw ((substitute_short a 0).1) (substitute_one a r h.0)
substitute-append (a ∷ b ∷ []) r h = rw ((substitute_short a b).2) (substitute_two a b r h.0 h.1.0)
substitute-append (a ∷ b ∷ c ∷ cs) r h =
    substitute-cons a b c (cs ++ 0 ∷ r)
    ∙ ground (
      arith,
      h,
      starts-append a b c cs r,
      substitute-cons a b c cs,
      substitute-append cs r h.1.1.1,
      substitute-append (b ∷ c ∷ cs) r h.1,
    )

length-substitute : (cs : List ℕ) → length (substitute cs) ≡ length cs
unfolding substitute
length-substitute [] = refl
length-substitute (a ∷ []) = refl
length-substitute (a ∷ b ∷ []) = refl
length-substitute (a ∷ b ∷ c ∷ cs) =
    ground (arith, length-substitute cs, length-substitute (b ∷ c ∷ cs))

has_zero-append : (file r : List ℕ) → has_zero (file ++ 0 ∷ r) ≡ true
has_zero-append [] r = refl
has_zero-append (c ∷ cs) r = ground (arith, has_zero-append cs r)

-- Behind a file that does not fill its pages the mapping goes on with a 0.
mapping_zero :
    (file : List ℕ) → length file % page_size ≢ 0 → (r : List ℕ) × (mapping file ≡ file ++ 0 ∷ r)
unfolding mapping
mapping_zero file part =
    let gap = (page_size - length file % page_size) % page_size in
    let some_gap : 0 < gap = omega (arith, part) in
    (replicate (gap - 1) 0, ap (λ z. file ++ z) (replicate-pos gap 0 some_gap))

-- A text with no 0 that does not fill its last page: whatever lies behind the mappings, `file_map` ends with
-- every "123" in it replaced by "zcq", from left to right, and the length unchanged.
pub file_map-substitute :
    (astray : List ℕ → Option (List ℕ)) (file : List ℕ)
    → NoZero file
    → length file % page_size ≢ 0
    → (file_map astray file ≡ some (substitute file)) × (length (substitute file) ≡ length file)
unfolding file_map
file_map-substitute astray file h part =
    let (r, there) = mapping_zero file part in
    let enough : length (file ++ 0 ∷ r) < length (file ++ 0 ∷ r) + 1 = omega arith in
    let loop = replace_loop-substitute (length (file ++ 0 ∷ r) + 1) (file ++ 0 ∷ r) enough in
    let kept : take (length file) (substitute file ++ 0 ∷ r) ≡ substitute file =
      rw (← length-substitute file) (take-front (substitute file) (0 ∷ r)) in
    (
      rw (there, has_zero-append file r, loop, substitute-append file r h) (ap some kept),
      length-substitute file,
    )
