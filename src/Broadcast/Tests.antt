-- ===== src/Broadcast/Tests.antt =====
-- A host and its notices.
use unix_ipc_note.Base.{true, replicate, ℕ, ◌+◌, ◌≡◌, refl, List, [], ◌∷◌, ◌++◌, map, arith}
use unix_ipc_note.System.{returned, got, read_failed, eintr, done}
use unix_ipc_note.FileLock.{to_string}
use unix_ipc_note.Broadcast.{maxline, recv_loop, Utsname, host_lines, recv_all, send_all, Recv}
use unix_ipc_note.Broadcast.Notices.{notices, recv_loop-texts, notices_arrive}

abbrev host : Utsname
host = record {
  sysname = b'L' ∷ [];
  nodename = b'n' ∷ [];
  release = b'6' ∷ [];
  version = b'1' ∷ [];
  machine = b'x' ∷ [];
  domainname = b'd' ∷ [];
}

abbrev label : ℕ → List ℕ
label n = b'a' ∷ b':' ∷ b' ' ∷ []

abbrev lines : List ℕ
lines = host_lines label 321 host

notices_arrive_example :
    (send_all label 12 321 (done host)
      ≡ returned (record { datagrams = notices lines ++ [] ∷ []; shut = true }))
    × (recv_all (map got (notices lines ++ [] ∷ []) ++ [])
        ≡ returned (record { cout = notices lines; errors = 0 }))
unfolding host_lines to_string
notices_arrive_example = notices_arrive label 2 321 host [] (ground arith) (omega arith)

-- An error is noted, and the next datagram printed.
recv_all_error :
    recv_all (read_failed eintr ∷ got (b'a' ∷ []) ∷ got [] ∷ [])
    ≡ returned (record { cout = (b'a' ∷ []) ∷ []; errors = 1 })
unfolding recv_all recv_loop
recv_all_error =
    recv_loop-texts ((b'a' ∷ []) ∷ []) (replicate (maxline + 1) 0)
      (record { cout = []; errors = 1 }) [] (omega arith, omega arith, (ground arith, tt), tt) refl

-- The buffer behind the bytes received is zero.
Recv_clears :
    Recv 4 (done (b'a' ∷ [])) ≡ returned (record { value = 1; buffer = b'a' ∷ 0 ∷ 0 ∷ 0 ∷ [] })
unfolding Recv
Recv_clears = refl
