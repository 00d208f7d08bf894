-- ===== src/Mesg/Empty.antt =====
-- A message with no data: what `Mesg_recv` makes of the header's size.
use unix_ipc_note.Base.{
  ℕ, ◌<◌, ◌≡◌, refl, List, [], ◌∷◌, drop, get_or, set, pos, minus_one, ◌==◌, if◌then◌else◌, arith,
}
use unix_ipc_note.System.{returned, ReadAnswer, got}
use unix_ipc_note.UnixIo.{newline}
use unix_ipc_note.Mesg.{Mesg, header, Mesg_recv}
use unix_ipc_note.Mesg.Longs.{long_back, header_type, header_len, header_rest, Read-header}

-- A header that announces no data: `recvsize` is still that of the header, so the value is 32, and
-- the test for a newline looks at byte 15 of what an earlier message has left in the data. Where it
-- is a newline, it is overwritten and the length becomes -1.
pub recv_empty :
    (t : ℕ) (old : Mesg) (es : List ReadAnswer)
    → t < 18446744073709551616
    → let left = 0 ∷ drop 1 old.mesg_data in
      Mesg_recv old (got (header t (pos 0)) ∷ es)
      ≡ returned (record {
        value = pos 32;
        mesg =
            if get_or left 15 0 == newline
            then record { mesg_type = t; mesg_len = minus_one; mesg_data = set left 15 0 }
            else record { mesg_type = t; mesg_len = pos 0; mesg_data = left };
        rest = es;
      })
unfolding Mesg_recv
recv_empty t old es ht =
    rw
      (
        Read-header t 0 es,
        header_rest t 0 (0 ∷ []),
        header_type t 0 (0 ∷ []),
        header_len t 0 (0 ∷ []),
        long_back t ht,
        long_back 0 (omega arith),
      )
      refl
