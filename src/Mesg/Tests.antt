-- ===== src/Mesg/Tests.antt =====
-- Messages on concrete bytes, and the theorems there.
use unix_ipc_note.Base.{replicate, ◌≡◌, [], ◌∷◌, ◌++◌, take, drop, pos, minus_one, arith}
use unix_ipc_note.System.{returned, got, wrote, write_failed, eintr}
use unix_ipc_note.UnixIo.{Written, newline}
use unix_ipc_note.Mesg.{Mesg, header, Mesg_send, Mesg_recv}
use unix_ipc_note.Mesg.Transfer.{Mesg_recv-Mesg_send}
use unix_ipc_note.Mesg.Empty.{recv_empty}

abbrev blank : Mesg
blank = record { mesg_type = 0; mesg_len = pos 0; mesg_data = replicate 5 7 }

abbrev stale : Mesg
stale = record { mesg_type = 0; mesg_len = pos 0; mesg_data = replicate 20 newline }

-- "ok" and a newline, over a pipe that takes ten bytes first.
Mesg_recv-Mesg_send_example :
    (w : Written) × (Mesg_send
        (record { mesg_type = 3; mesg_len = pos 3; mesg_data = b'o' ∷ b'k' ∷ newline ∷ 9 ∷ [] })
        (wrote 10 ∷ write_failed eintr ∷ wrote 9 ∷ [])
      ≡ returned w)
    × (w.value ≡ pos 19)
    × (Mesg_recv blank (got (take 16 w.sent) ∷ got (drop 16 w.sent) ∷ [])
        ≡ returned (record {
          value = pos 19;
          mesg = record {
            mesg_type = 3;
            mesg_len = pos 2;
            mesg_data = b'o' ∷ b'k' ∷ 0 ∷ 0 ∷ 7 ∷ [];
          };
          rest = [];
        }))
Mesg_recv-Mesg_send_example =
    Mesg_recv-Mesg_send 3 newline (b'o' ∷ b'k' ∷ []) (9 ∷ []) blank
      (wrote 10 ∷ write_failed eintr ∷ wrote 9 ∷ []) [] (omega arith) (omega arith) (omega arith)
      (omega arith)

recv_empty_example :
    Mesg_recv stale (got (header 1 (pos 0)) ∷ [])
    ≡ returned (record {
      value = pos 32;
      mesg = record {
        mesg_type = 1;
        mesg_len = minus_one;
        mesg_data = 0 ∷ (replicate 14 newline ++ 0 ∷ replicate 4 newline);
      };
      rest = [];
    })
recv_empty_example = recv_empty 1 stale [] (omega arith)

-- As many bytes as the data has, into a struct with sevens in it and behind it.
abbrev sevens : Mesg
sevens = record { mesg_type = 0; mesg_len = pos 0; mesg_data = replicate 4090 7 }
