-- ===== src/Datagrams/Agreement.antt =====
-- `Recvfrom_flags` and `Recvmsg_seq_ts` on the same answer.
use unix_ipc_note.Base.{
  ℕ, ◌≡◌, refl, ◌≢◌, true, false, Option, some, List, [], ◌∷◌, ◌++◌, minus_one, ℤ, arith, length,
  pos,
}
use unix_ipc_note.System.{Outcome, returned, exited, blocked, Answer, done, failed}
use unix_ipc_note.Descriptors.{Cmsg, Arrival}
use unix_ipc_note.Datagrams.{
  PktInfo, Datagram, is_pktinfo, zero_info, copy_info, flags_loop, seq_loop, recvmsg_flags,
  Recvfrom_flags, recvmsg_seq_ts, Recvmsg_seq_ts, cannot_tell,
}

-- Every control message is an IP_PKTINFO.
abbrev pub AllKnown : List Cmsg → Type 0
AllKnown [] = Unit
AllKnown (c ∷ cs) = (is_pktinfo c ≡ true) × AllKnown cs

-- The value, the length of the address and the packet's information, or the exit status.
abbrev pub seen : Outcome Datagram → Outcome (ℤ × ℕ × Option PktInfo)
seen (returned d) = returned (d.value, d.salen, d.pktinfo)
seen (exited v) = exited v
seen blocked = blocked

loops_agree :
    (p : PktInfo) (cs : List Cmsg) → AllKnown cs → flags_loop p cs ≡ returned (seq_loop p cs)
unfolding flags_loop seq_loop
loops_agree p [] known = refl
loops_agree p (c ∷ cs) known = rw (known.0) (loops_agree (copy_info c.cmsg_data) cs known.1)

agree :
    (old1 old2 : List ℕ) (flags salen nbytes1 : ℕ) (p : PktInfo) (a : Arrival) (bs : List ℕ)
    → a.bytes ≡ bs
    → AllKnown a.control
    → seen (Recvfrom_flags old1 flags salen (some p) (done a))
      ≡ seen (Recvmsg_seq_ts old1 nbytes1 old2 salen (some p) (done a))
unfolding Recvfrom_flags recvmsg_flags Recvmsg_seq_ts recvmsg_seq_ts
agree old1 old2 flags salen nbytes1 p a [] e known = rw e refl
agree old1 old2 flags salen nbytes1 p a (b ∷ bs) e known =
    ground (arith, loops_agree zero_info a.control known)

abbrev pub Known : Answer Arrival → Type 0
Known (failed e) = Unit
Known (done a) = AllKnown a.control

-- Given the same answer of the kernel and a place for the information, `Recvfrom_flags` and
-- `Recvmsg_seq_ts` return the same value, address length and packet information, or both end the
-- process with the same status, provided that every control message is an IP_PKTINFO.
pub receivers_agree :
    (old1 old2 : List ℕ) (flags salen nbytes1 : ℕ) (p : PktInfo) (x : Answer Arrival)
    → Known x
    → seen (Recvfrom_flags old1 flags salen (some p) x)
      ≡ seen (Recvmsg_seq_ts old1 nbytes1 old2 salen (some p) x)
unfolding Recvfrom_flags recvmsg_flags Recvmsg_seq_ts recvmsg_seq_ts
receivers_agree old1 old2 flags salen nbytes1 p (failed e) known = refl
receivers_agree old1 old2 flags salen nbytes1 p (done a) known =
    agree old1 old2 flags salen nbytes1 p a a.bytes refl known

loop_exits :
    (p : PktInfo) (before after : List Cmsg) (c : Cmsg)
    → is_pktinfo c ≡ false
    → flags_loop p (before ++ c ∷ after) ≡ exited minus_one
unfolding flags_loop
loop_exits p [] after c h = rw h refl
loop_exits p (d ∷ before) after c h =
    ground (arith, loop_exits (copy_info d.cmsg_data) before after c h)

unknown :
    (old1 old2 : List ℕ) (flags salen nbytes1 : ℕ) (p : PktInfo) (a : Arrival) (bs : List ℕ)
    (before after : List Cmsg) (c : Cmsg)
    → a.bytes ≡ bs
    → bs ≢ []
    → cannot_tell a (some p) ≡ false
    → a.control ≡ before ++ c ∷ after
    → is_pktinfo c ≡ false
    → (Recvfrom_flags old1 flags salen (some p) (done a) ≡ exited minus_one)
      × (seen (Recvmsg_seq_ts old1 nbytes1 old2 salen (some p) (done a))
          ≡ returned (pos (length a.bytes), a.msg_namelen, some (seq_loop zero_info a.control)))
unfolding Recvfrom_flags recvmsg_flags Recvmsg_seq_ts recvmsg_seq_ts
unknown old1 old2 flags salen nbytes1 p a [] before after c e ne whole there h = absurd (ne refl)
unknown old1 old2 flags salen nbytes1 p a (b ∷ bs) before after c e ne whole there h =
    let ends : flags_loop zero_info a.control ≡ exited minus_one =
      rw there (loop_exits zero_info before after c h) in
    (ground (arith, ends), ground arith)

-- A datagram that is not empty, whose control data is complete and holds a message that is no
-- IP_PKTINFO: `Recvfrom_flags` ends the process with -1, while `Recvmsg_seq_ts` returns the number of
-- bytes and what the IP_PKTINFO messages say.
pub unknown_control :
    (old1 old2 : List ℕ) (flags salen nbytes1 : ℕ) (p : PktInfo) (a : Arrival)
    (before after : List Cmsg) (c : Cmsg)
    → a.bytes ≢ []
    → cannot_tell a (some p) ≡ false
    → a.control ≡ before ++ c ∷ after
    → is_pktinfo c ≡ false
    → (Recvfrom_flags old1 flags salen (some p) (done a) ≡ exited minus_one)
      × (seen (Recvmsg_seq_ts old1 nbytes1 old2 salen (some p) (done a))
          ≡ returned (pos (length a.bytes), a.msg_namelen, some (seq_loop zero_info a.control)))
unknown_control old1 old2 flags salen nbytes1 p a before after c ne whole there h =
    unknown old1 old2 flags salen nbytes1 p a a.bytes before after c refl ne whole there h
