-- ===== src/FileServer/Tests.antt =====
-- A client that asks for a file of two lines.
use unix_ipc_note.Base.{◌≡◌, refl, List, [], ◌∷◌, ◌++◌, length, pos, arith}
use unix_ipc_note.System.{returned, eintr, got, wrote, read_failed, done}
use unix_ipc_note.UnixIo.{newline}
use unix_ipc_note.UnixIo.ReadLaws.{chomp}
use unix_ipc_note.FileLock.{to_string}
use unix_ipc_note.FileServer.{
  end_mark, Round, served, reply, one_service_round, address, client_request,
}
use unix_ipc_note.FileServer.Copy.{Piece, AllFit, turns, texts, end_turn, reply-Copies}
use unix_ipc_note.FileServer.Request.{request_arrives}

-- "ab" and "cd", two lines that were read one by one.
abbrev line_ab : Piece
line_ab = record { first = b'a'; more = b'b' ∷ newline ∷ []; writes = wrote 1 ∷ wrote 1 ∷ [] }

abbrev line_cd : Piece
line_cd = record { first = b'c'; more = b'd' ∷ newline ∷ []; writes = wrote 2 ∷ [] }

abbrev file : List Piece
file = line_ab ∷ line_cd ∷ []

file-AllFit : AllFit file
unfolding chomp
file-AllFit = (
  record { room = omega arith; taken = (omega arith, (omega arith, tt)) },
  (record { room = omega arith; taken = (omega arith, tt) }, tt),
)

-- "77 f"
abbrev round : Round
round = record {
  request = read_failed eintr ∷ got (b'7' ∷ b'7' ∷ b' ' ∷ b'f' ∷ []) ∷ [];
  client_fifo = done 5;
  file = done 6;
  copying = turns file (end_turn ∷ []);
  last = wrote 1 ∷ [];
}

reply-Copies_example :
    reply round (pos 77, b'f' ∷ [])
    ≡ served (pos 77) (b'f' ∷ []) (record { out = texts file ++ end_mark; fate = returned tt })
reply-Copies_example = reply-Copies round file (pos 77) (b'f' ∷ []) (record {
  fifo_open = (5, refl);
  file_open = (6, refl);
  fit = file-AllFit;
  pieces = refl;
  mark_taken = (omega arith, tt);
})

-- The newlines are gone.
file_texts : texts file ++ end_mark ≡ b'a' ∷ b'b' ∷ b'c' ∷ b'd' ∷ 0 ∷ []
unfolding chomp
file_texts = refl

request_arrives_example :
    (client_request 77 (read_failed eintr ∷ got (b'f' ∷ newline ∷ []) ∷ []) (wrote 4 ∷ [])
      ≡ returned (record {
        value = pos (length (address 77 ++ b'f' ∷ []));
        sent = address 77 ++ b'f' ∷ [];
      }))
    × (one_service_round round ≡ returned (reply round (pos 77, b'f' ∷ [])))
unfolding to_string
request_arrives_example =
    request_arrives 77 b'f' [] 1 1 [] (wrote 4 ∷ []) round (omega arith)
      (record { plain = (omega arith, tt); no_blank = refl; one_line = omega arith }) (omega arith)
      (omega arith, tt) refl
