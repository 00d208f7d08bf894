-- ===== src/UnixIo/WriteLaws.antt =====
-- `Write`: every byte once and in order, over partial writes and interruptions.
use unix_ipc_note.Base.{
  ℕ, zero, suc, ◌-◌, ◌≤◌, ◌<◌, ◌≡◌, ◌≢◌, refl, ◌∙◌, List, [], ◌∷◌, ◌++◌, length, take, drop,
  take-append-drop, length-drop, append-nil, append_assoc, pos, minus_one, arith, map,
}
use unix_ipc_note.System.{Errno, eintr, returned, exited, WriteAnswer, wrote, write_failed}
use unix_ipc_note.UnixIo.{write_loop, Write}

-- The answers take `n` bytes in all: each takes no more than is left, and the last has taken the
-- rest. Interruptions may stand anywhere; what comes after the last byte is not looked at.
abbrev pub Delivers : List WriteAnswer → ℕ → Type 0
Delivers es zero = Unit
Delivers [] (suc n) = ⊥
Delivers (wrote k ∷ es) (suc n) = (k ≤ suc n) × Delivers es (suc n - k)
Delivers (write_failed eintr ∷ es) (suc n) = Delivers es (suc n)
Delivers (write_failed _ ∷ es) (suc n) = ⊥

write_loop_lem :
    (size : ℕ) (left sent : List ℕ) (es : List WriteAnswer)
    → Delivers es (length left)
    → write_loop size left sent es ≡ returned (record { value = pos size; sent = sent ++ left })
unfolding write_loop
write_loop_lem size [] sent es d = rw (append-nil sent)
write_loop_lem size (b ∷ left) sent [] d = absurd d
write_loop_lem size (b ∷ left) sent (wrote k ∷ es) d =
    write_loop_lem size (drop k (b ∷ left)) (sent ++ take k (b ∷ left)) es
      (rw (length-drop k (b ∷ left)) d.1)
    ∙ rw (append_assoc sent (take k (b ∷ left)) (drop k (b ∷ left)), take-append-drop k (b ∷ left))
write_loop_lem size (b ∷ left) sent (write_failed eintr ∷ es) d =
    write_loop_lem size (b ∷ left) sent es d
write_loop_lem size (b ∷ left) sent (write_failed _ ∷ es) d = absurd d

-- Where write(2) takes the bytes in pieces of any size, with interruptions anywhere, `Write` comes
-- back with the full length, and exactly the given bytes have gone out, in order.
pub Write-Delivers :
    (bytes : List ℕ) (es : List WriteAnswer)
    → Delivers es (length bytes)
    → Write bytes es ≡ returned (record { value = pos (length bytes); sent = bytes })
unfolding Write
Write-Delivers bytes es d = write_loop_lem (length bytes) bytes [] es d

-- Partial writes that leave something of `n` bytes.
abbrev pub Partial : List ℕ → ℕ → Type 0
Partial [] n = 0 < n
Partial (k ∷ ks) n = (k < n) × Partial ks (n - k)

write_loop-fails :
    (size : ℕ) (left sent ks : List ℕ) (e : Errno) (es : List WriteAnswer)
    → Partial ks (length left)
    → e ≢ eintr
    → write_loop size left sent (map wrote ks ++ (write_failed e ∷ es)) ≡ exited minus_one
unfolding write_loop
write_loop-fails size [] sent [] e es p h = absurd (omega arith)
write_loop-fails size [] sent (k ∷ ks) e es p h = absurd (omega arith)
write_loop-fails size (b ∷ left) sent (k ∷ ks) e es p h =
    write_loop-fails size (drop k (b ∷ left)) (sent ++ take k (b ∷ left)) ks e es
      (rw (length-drop k (b ∷ left)) p.1) h
write_loop-fails size (b ∷ left) sent [] eintr es p h = absurd (h refl)
write_loop-fails size (b ∷ left) sent [] _ es p h = refl

-- Any error but an interruption that comes while bytes are left makes `Write` exit with -1.
pub Write_fails :
    (bytes ks : List ℕ) (e : Errno) (es : List WriteAnswer)
    → Partial ks (length bytes)
    → e ≢ eintr
    → Write bytes (map wrote ks ++ (write_failed e ∷ es)) ≡ exited minus_one
unfolding Write
Write_fails bytes ks e es p h = write_loop-fails (length bytes) bytes [] ks e es p h
