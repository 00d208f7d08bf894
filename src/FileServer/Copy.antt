-- ===== src/FileServer/Copy.antt =====
-- What is copied.
use unix_ipc_note.Base.{
  ℕ, ◌-◌, ◌<◌, ◌≡◌, refl, ap, sym, ◌∙◌, true, List, [], ◌∷◌, ◌++◌, length, replicate, take-front,
  append_assoc, append-nil, ℤ, pos, ltb, arith,
}
use unix_ipc_note.System.{returned, done, got, WriteAnswer}
use unix_ipc_note.UnixIo.{Read}
use unix_ipc_note.UnixIo.ReadLaws.{chomp, Read_text, Read_errors}
use unix_ipc_note.UnixIo.WriteLaws.{Delivers, Write-Delivers}
use unix_ipc_note.Broadcast.{maxline}
use unix_ipc_note.FileServer.{
  Turn, Copied, behind, copy_loop, end_mark, finish, Round, served, reply,
}

-- A piece that read(2) gives, and how write(2) takes it.
pub record Piece : Type 0 where
  pub first : ℕ
  pub more : List ℕ
  pub writes : List WriteAnswer

abbrev pub text : Piece → List ℕ
text p = chomp (p.first ∷ p.more)

pub record Fits (p : Piece) : Type 0 where
  pub room : length (p.first ∷ p.more) < maxline
  pub taken : Delivers p.writes (length (text p))

abbrev pub AllFit : List Piece → Type 0
AllFit [] = Unit
AllFit (p ∷ ps) = Fits p × AllFit ps

abbrev pub turn : Piece → Turn
turn p = record { reads = got (p.first ∷ p.more) ∷ []; writes = p.writes }

abbrev pub turns : List Piece → List Turn → List Turn
turns [] ts = ts
turns (p ∷ ps) ts = turn p ∷ turns ps ts

-- The pieces, each less the newline at its end unless it is nothing else.
abbrev pub texts : List Piece → List ℕ
texts [] = []
texts (p ∷ ps) = text p ++ texts ps

chomp_positive : (c : ℕ) (cs : List ℕ) → 0 < length (chomp (c ∷ cs))
unfolding chomp
chomp_positive c [] = omega arith
chomp_positive c (d ∷ []) = ground arith
chomp_positive c (d ∷ e ∷ cs) = omega arith

copy_piece :
    (p : Piece) (ts : List Turn) → Fits p → copy_loop (turn p ∷ ts) ≡ behind (text p) (copy_loop ts)
unfolding copy_loop
copy_piece p ts f =
    let more : ltb 0 (length (text p)) ≡ true = ground (arith, chomp_positive p.first p.more) in
    let arrived : Read maxline 1 (turn p).reads
        ≡ returned (record {
          value = pos (length (text p));
          buffer = text p ++ replicate (maxline - length (text p)) 0;
          rest = [];
        }) =
      Read_text maxline 0 p.first p.more [] f.room in
    rw
      (
        arrived,
        copy_loop,
        more,
        take-front (text p) (replicate {A = ℕ} (maxline - length (text p)) 0),
        Write-Delivers (text p) p.writes f.taken,
      )
      refl

pub copy_pieces :
    (ps : List Piece) (ts : List Turn)
    → AllFit ps
    → copy_loop (turns ps ts) ≡ behind (texts ps) (copy_loop ts)
copy_pieces [] ts f = refl
copy_pieces (p ∷ ps) ts f =
    copy_piece p (turns ps ts) f.0
    ∙ ap (behind (text p)) (copy_pieces ps ts f.1)
    ∙ ap (λ out. let c : Copied = record { out = out; fate = (copy_loop ts).fate } in c)
        (sym (append_assoc (text p) (texts ps) (copy_loop ts).out))

-- The end of the file, or of the FIFO's writers.
abbrev pub end_turn : Turn
end_turn = record { reads = got [] ∷ []; writes = [] }

copy_end : (ts : List Turn) → copy_loop (end_turn ∷ ts) ≡ record { out = []; fate = returned tt }
unfolding copy_loop
copy_end ts = rw ((Read_errors maxline 1 0 []).0, copy_loop) refl

-- The answers of a round in which the file is copied, in pieces `ps`, to a client's FIFO.
pub record Copies (r : Round) (ps : List Piece) : Type 0 where
  pub fifo_open : (fd : ℕ) × (r.client_fifo ≡ done fd)
  pub file_open : (fd : ℕ) × (r.file ≡ done fd)
  pub fit : AllFit ps
  pub pieces : r.copying ≡ turns ps (end_turn ∷ [])
  pub mark_taken : Delivers r.last 1

finish_lem :
    (bytes : List ℕ) (ws : List WriteAnswer)
    → Delivers ws 1
    → finish (record { out = bytes; fate = returned tt }) ws
      ≡ record { out = bytes ++ end_mark; fate = returned tt }
finish_lem bytes ws d = rw (Write-Delivers end_mark ws d, finish) refl

-- Where both open(2) succeed, the file comes in pieces of 1 to 4095 bytes, and all writes go through: the
-- service writes each piece into the client's FIFO, in order, without the newline that may end it, except
-- that a piece which is a single newline is written as it is; and then one zero byte.
pub reply-Copies :
    (r : Round) (ps : List Piece) (cpid : ℤ) (path : List ℕ)
    → Copies r ps
    → reply r (cpid, path)
      ≡ served cpid path (record { out = texts ps ++ end_mark; fate = returned tt })
unfolding reply
reply-Copies r ps cpid path c =
    let copied : copy_loop r.copying ≡ record { out = texts ps; fate = returned tt } =
      ap copy_loop c.pieces
      ∙ copy_pieces ps (end_turn ∷ []) c.fit
      ∙ ap (behind (texts ps)) (copy_end [])
      ∙ ap (λ out. let d : Copied = record { out = out; fate = returned tt } in d)
          (append-nil (texts ps)) in
    rw (c.fifo_open.1, c.file_open.1, reply)
      (ap (λ d. served cpid path (finish d r.last)) copied
        ∙ ap (served cpid path) (finish_lem (texts ps) r.last c.mark_taken))
