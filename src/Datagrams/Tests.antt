-- ===== src/Datagrams/Tests.antt =====
-- Datagrams with control data, and the theorems there.
use unix_ipc_note.Base.{◌≡◌, refl, none, some, List, [], ◌∷◌, ℤ, pos, minus_one}
use unix_ipc_note.System.{returned, exited, done}
use unix_ipc_note.Descriptors.{Cmsg, Arrival}
use unix_ipc_note.Datagrams.{zero_info, seq_loop, recvmsg_flags, Recvfrom_flags, Recvmsg_seq_ts}
use unix_ipc_note.Datagrams.Agreement.{seen, receivers_agree, unknown_control}

abbrev pktinfo_cmsg : Cmsg
pktinfo_cmsg = record {
  cmsg_len = 28;
  cmsg_level = 0;
  cmsg_type = 8;
  cmsg_data = 2 ∷ 0 ∷ 0 ∷ 0 ∷ 10 ∷ 0 ∷ 0 ∷ 1 ∷ 10 ∷ 0 ∷ 0 ∷ 9 ∷ [];
}

abbrev other_cmsg : Cmsg
other_cmsg = record { cmsg_len = 17; cmsg_level = 0; cmsg_type = 2; cmsg_data = 64 ∷ [] }

abbrev datagram : List Cmsg → Arrival
datagram control = record {
  bytes = b'h' ∷ b'i' ∷ b'!' ∷ [];
  msg_namelen = 16;
  msg_controllen = 32;
  msg_flags = 0;
  control = control;
}

receivers_agree_example :
    seen (Recvfrom_flags [] 0 128 (some zero_info) (done (datagram (pktinfo_cmsg ∷ []))))
    ≡ seen (Recvmsg_seq_ts [] 2 [] 128 (some zero_info) (done (datagram (pktinfo_cmsg ∷ []))))
receivers_agree_example =
    receivers_agree [] [] 0 128 2 zero_info (done (datagram (pktinfo_cmsg ∷ []))) (refl, tt)

abbrev mixed : Arrival
mixed = datagram (pktinfo_cmsg ∷ other_cmsg ∷ [])

unknown_control_example :
    (Recvfrom_flags [] 0 128 (some zero_info) (done mixed) ≡ exited minus_one)
    × (seen (Recvmsg_seq_ts [] 2 [] 128 (some zero_info) (done mixed))
        ≡ returned (pos 3, 16, some (seq_loop zero_info mixed.control)))
unknown_control_example =
    unknown_control [] [] 0 128 2 zero_info mixed (pktinfo_cmsg ∷ []) [] other_cmsg (λ e. cc) refl
      refl refl

-- With no place for the packet's information the datagram counts as truncated.
no_place :
    seen (Recvfrom_flags [] 0 128 none (done (datagram (pktinfo_cmsg ∷ [])))) ≡ exited (ℤ.negsuc 1)
unfolding Recvfrom_flags recvmsg_flags
no_place = refl
