-- ===== src/Words/Join.antt =====
-- Words joined by single spaces come back from `strtovec`.
use unix_ipc_note.Base.{
  ℕ, ◌≡◌, refl, sym, ap, ◌∙◌, List, [], ◌∷◌, ◌++◌, append-nil, append_assoc, arith,
}
use unix_ipc_note.System.{returned}
use unix_ipc_note.Words.{space, keep_word, strtovec}
use unix_ipc_note.Words.Split.{emit, scan, strtovec-scan, NoSpace, IsWord, All}

pub join : List (List ℕ) → List ℕ
join [] = []
join (w ∷ []) = w
join (w ∷ v ∷ ws) = w ++ space ∷ join (v ∷ ws)

scan-append : (word w rest : List ℕ) → NoSpace w → scan word (w ++ rest) ≡ scan (word ++ w) rest
unfolding scan
scan-append word [] rest s = rw (append-nil word) refl
scan-append word (c ∷ w) rest s =
    rw (s.0, scan)
      (scan-append (word ++ c ∷ []) w rest s.1 ∙ rw (append_assoc word (c ∷ []) w) refl)

emit-IsWord : (w : List ℕ) (ws : List (List ℕ)) → IsWord w → emit w ws ≡ w ∷ ws
unfolding emit keep_word
emit-IsWord w ws v = ground arith

scan-join : (ws : List (List ℕ)) → All IsWord ws → scan [] (join ws) ≡ ws
unfolding join scan keep_word
scan-join [] h = refl
scan-join (w ∷ []) h =
    ap (scan []) (sym (append-nil w)) ∙ scan-append [] w [] h.0.no_space ∙ emit-IsWord w [] h.0
scan-join (w ∷ v ∷ ws) h =
    scan-append [] w (space ∷ join (v ∷ ws)) h.0.no_space
    ∙ emit-IsWord w (scan [] (join (v ∷ ws))) h.0
    ∙ ap (◌∷◌ w) (scan-join (v ∷ ws) h.1)

-- Words that hold no space and are no lone newline, joined by single spaces, are what `strtovec`
-- gives back; the first word is written with its first byte.
pub strtovec-join :
    (c : ℕ) (w : List ℕ) (ws : List (List ℕ))
    → All IsWord ((c ∷ w) ∷ ws)
    → strtovec (join ((c ∷ w) ∷ ws)) ≡ returned ((c ∷ w) ∷ ws)
unfolding join
strtovec-join c w [] h = (strtovec-scan c w).0 ∙ ap returned (scan-join ((c ∷ w) ∷ []) h)
strtovec-join c w (v ∷ ws) h =
    (strtovec-scan c (w ++ space ∷ join (v ∷ ws))).0 ∙ ap returned (scan-join ((c ∷ w) ∷ v ∷ ws) h)

-- A single word.
pub strtovec_word :
    (c : ℕ) (w : List ℕ) → IsWord (c ∷ w) → strtovec (c ∷ w) ≡ returned ((c ∷ w) ∷ [])
unfolding join
strtovec_word c w h = strtovec-join c w [] (h, tt)
