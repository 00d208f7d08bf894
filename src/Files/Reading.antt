-- ===== src/Files/Reading.antt =====
-- What the loop of `file_open_read` prints, and where the writers write.
use unix_ipc_note.Base.{
  ℕ, ◌+◌, ◌-◌, ◌≡◌, refl, ap, ◌∙◌, List, [], ◌∷◌, ◌++◌, length, drop, replicate, append-nil,
  append_assoc, length-append, length-replicate, take-all, drop-beyond, arith,
}
use unix_ipc_note.System.{returned, ReadAnswer, got, done}
use unix_ipc_note.Files.{
  Numbers, read_loop, file_error_print, file_open_read, write_at, added, brackets, file_open_write,
  file_location_write,
}

-- The answers of read(2) that give a file in pieces, none of them empty, and then `es`.
pub data Gives : List ℕ → List ReadAnswer → List ReadAnswer → Type 0 where
  at_end : {es : List ReadAnswer} → Gives [] es es
  piece :
      {b : ℕ} {bs file : List ℕ} {es rest : List ReadAnswer}
      → Gives file rest es
      → Gives ((b ∷ bs) ++ file) (got (b ∷ bs) ∷ rest) es

module _ (n : Numbers) where
  read_loop-Gives :
      {file : List ℕ} {rest es : List ReadAnswer}
      → Gives file rest (got [] ∷ es)
      → read_loop n rest ≡ returned file
  unfolding read_loop
  read_loop-Gives at_end = refl
  read_loop-Gives (piece g) = rw (read_loop-Gives g) refl

-- Where the file opens, in whatever pieces it is read, `file_open_read` prints the file and returns.
pub file_open_read-Gives :
    (n : Numbers) (fd : ℕ) {file : List ℕ} {rest es : List ReadAnswer}
    → Gives file rest (got [] ∷ es)
    → file_open_read n (done fd) rest ≡ returned file
unfolding file_open_read file_error_print
file_open_read-Gives n fd g = read_loop-Gives n g

-- A write at or behind the end fills the gap with zeros.
write_behind :
    (file bs : List ℕ) (gap : ℕ)
    → write_at (length file + gap) bs file ≡ file ++ (replicate gap 0 ++ bs)
unfolding write_at
write_behind file bs gap =
    let left : length file + gap - length file ≡ gap = omega arith in
    let long : length (file ++ replicate gap 0) ≡ length file + gap =
      omega (arith, length-append file (replicate gap 0), length-replicate {A = ℕ} gap 0) in
    let behind : drop (length file + gap + length bs) file ≡ [] =
      drop-beyond (length file + gap + length bs) file (omega arith) in
    rw (left, behind, ← long, take-all (file ++ replicate gap 0), append-nil bs)
      (append_assoc file (replicate gap 0) bs)

-- `file_open_write` writes behind the end; `file_location_write` leaves one 0 between.
pub writers_append :
    (file : List ℕ)
    → (file_open_write file ≡ file ++ added) × (file_location_write file ≡ file ++ 0 ∷ brackets)
unfolding file_open_write file_location_write
writers_append file =
    let e : length file ≡ length file + 0 = omega arith in
    (ap (λ k. write_at k added file) e ∙ write_behind file added 0, write_behind file brackets 1)
