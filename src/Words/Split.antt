-- ===== src/Words/Split.antt =====
-- `strtovec` against a scan of the text byte by byte.
use unix_ipc_note.Base.{
  ℕ, zero, suc, ◌≤◌, ◌<◌, ◌≡◌, refl, sym, ap, ◌∙◌, inl, inr, true, false, List, [], ◌∷◌, ◌++◌,
  append-nil, append_assoc, length, arith, Bool-cases, minus_one, ◌==◌, if◌then◌else◌,
}
use unix_ipc_note.System.{returned, exited}
use unix_ipc_note.Words.{
  space, newline, list_eq, next_word, after_space, keep_word, split_loop, strtovec,
}

-- A finished word goes to the front of the rest, unless it is empty or a lone newline.
unfoldable pub emit : List ℕ → List (List ℕ) → List (List ℕ)
emit [] ws = ws
emit (c ∷ []) ws = if c == newline then ws else (c ∷ []) ∷ ws
emit (c ∷ d ∷ r) ws = (c ∷ d ∷ r) ∷ ws

-- The reference: one pass over the bytes with the word under way.
unfoldable pub scan : List ℕ → List ℕ → List (List ℕ)
unfolding emit
scan word [] = emit word []
scan word (c ∷ cs) = if c == space then emit word (scan [] cs) else scan (word ++ c ∷ []) cs

emit-nil : (ws : List (List ℕ)) → emit [] ws ≡ ws
unfolding emit
emit-nil ws = refl

emit-keep_word :
    (w : List ℕ) (ws : List (List ℕ)) → emit w ws ≡ (if keep_word w then w ∷ ws else ws)
unfolding emit keep_word list_eq
emit-keep_word [] ws = ground arith
emit-keep_word (c ∷ []) ws = ground arith
emit-keep_word (c ∷ d ∷ r) ws = ground arith

scan-next_word :
    (word text : List ℕ)
    → scan word text ≡ emit (word ++ next_word text) (scan [] (after_space text))
unfolding scan next_word after_space
scan-next_word word [] = rw (append-nil word, emit-nil []) refl
scan-next_word word (c ∷ cs) = elim (Bool-cases (c == space)) [
  | inl e ↦ rw (e, scan, next_word, after_space, append-nil word) refl
  | inr e ↦
      rw (e, scan, next_word, after_space)
        (scan-next_word (word ++ c ∷ []) cs ∙ rw (append_assoc word (c ∷ []) (next_word cs)) refl)
]

length-after_space : (c : ℕ) (cs : List ℕ) → length (after_space (c ∷ cs)) ≤ length cs
unfolding after_space
length-after_space c [] = ground arith
length-after_space c (d ∷ cs) = ground (arith, length-after_space d cs)

-- A round for each byte is enough fuel: with it or more, the loop gives the words of the scan.
split_loop-scan :
    (fuel : ℕ) (text : List ℕ) → length text ≤ fuel → split_loop fuel text ≡ scan [] text
unfolding split_loop scan
split_loop-scan zero [] h = refl
split_loop-scan zero (c ∷ cs) h = absurd (omega arith)
split_loop-scan (suc fuel) [] h = refl
split_loop-scan (suc fuel) (c ∷ cs) h =
    rw (split_loop-scan fuel (after_space (c ∷ cs)) (omega (arith, length-after_space c cs))) (
      sym (
        scan-next_word [] (c ∷ cs)
        ∙ emit-keep_word (next_word (c ∷ cs)) (scan [] (after_space (c ∷ cs)))))

-- `strtovec` gives the words of a text that is not empty as the scan does, byte by byte; on the
-- empty text the process exits with -1.
pub strtovec-scan :
    (c : ℕ) (cs : List ℕ)
    → (strtovec (c ∷ cs) ≡ returned (scan [] (c ∷ cs))) × (strtovec [] ≡ exited minus_one)
unfolding strtovec
strtovec-scan c cs = (ap returned (split_loop-scan (length (c ∷ cs)) (c ∷ cs) (omega arith)), refl)

-- A word as `strtovec` may give it: some bytes, none of them a space, and no lone newline.
abbrev pub NoSpace : List ℕ → Type 0
NoSpace [] = Unit
NoSpace (c ∷ cs) = ((c == space) ≡ false) × NoSpace cs

pub record IsWord (w : List ℕ) : Type 0 where
  pub some_bytes : 0 < length w
  pub no_space : NoSpace w
  pub no_newline : list_eq w (newline ∷ []) ≡ false

abbrev pub All {ℓ κ} : {A : Type ℓ} → (A → Type κ) → List A → Type κ
All P [] = Unit
All P (x ∷ xs) = P x × All P xs

NoSpace-next_word : (text : List ℕ) → NoSpace (next_word text)
unfolding next_word
NoSpace-next_word [] = tt
NoSpace-next_word (c ∷ cs) = elim (Bool-cases (c == space)) [
  | inl e ↦ rw (e, next_word) tt
  | inr e ↦ rw (e, next_word) (e, NoSpace-next_word cs)
]

keep_word-IsWord : (w : List ℕ) → NoSpace w → keep_word w ≡ true → IsWord w
unfolding keep_word
keep_word-IsWord w s k = record {
  some_bytes = ground arith;
  no_space = s;
  no_newline = ground arith;
}

split_loop-IsWord : (fuel : ℕ) (text : List ℕ) → All IsWord (split_loop fuel text)
unfolding split_loop
split_loop-IsWord zero text = tt
split_loop-IsWord (suc fuel) [] = tt
split_loop-IsWord (suc fuel) (c ∷ cs) = elim (Bool-cases (keep_word (next_word (c ∷ cs)))) [
  | inl e ↦
      rw (e, split_loop)
        (
          keep_word-IsWord (next_word (c ∷ cs)) (NoSpace-next_word (c ∷ cs)) e,
          split_loop-IsWord fuel (after_space (c ∷ cs)),
        )
  | inr e ↦ rw (e, split_loop) (split_loop-IsWord fuel (after_space (c ∷ cs)))
]

-- Every word that `strtovec` returns has some bytes and no space, and is no lone newline.
pub strtovec-IsWord :
    (text : List ℕ) (ws : List (List ℕ)) → strtovec text ≡ returned ws → All IsWord ws
unfolding strtovec
strtovec-IsWord [] ws e = cc
strtovec-IsWord (c ∷ cs) ws e =
    let q : split_loop (length (c ∷ cs)) (c ∷ cs) ≡ ws = cc in
    rw (← q) (split_loop-IsWord (length (c ∷ cs)) (c ∷ cs))
