-- ===== src/QueueSetup/Exchange.antt =====
-- What test_mq_service sends back.
use unix_ipc_note.Base.{
  ℕ, ◌-◌, ◌≤◌, ◌<◌, ◌≡◌, refl, some, none, List, [], ◌∷◌, ◌++◌, length, replicate, replicate-pos,
  append-nil, arith,
}
use unix_ipc_note.System.{returned, done}
use unix_ipc_note.UnixIo.ReadLaws.{chomp}
use unix_ipc_note.Words.Strings.{NoZero}
use unix_ipc_note.Wrappers.Receive.{Mq_receive_text}
use unix_ipc_note.QueueSetup.{terminated, test_mq_service}

terminated-append : (text rest : List ℕ) → NoZero text → terminated (text ++ 0 ∷ rest) ≡ some text
unfolding terminated
terminated-append [] rest h = refl
terminated-append (c ∷ cs) rest h = ground (arith, h, terminated-append cs rest h.1)

terminated-none : (text : List ℕ) → NoZero text → terminated text ≡ none
unfolding terminated
terminated-none [] h = refl
terminated-none (c ∷ cs) h = ground (arith, h, terminated-none cs h.1)

-- A message without a 0 that fits the queue's message size: if it is shorter, less the newline that may end
-- it, test_mq_service sends that text back; if it fills the size and ends in no newline, strlen(mq_buf)
-- reads behind the end of the buffer.
pub test_mq_service_echo :
    (size b : ℕ) (bs : List ℕ)
    → NoZero (chomp (b ∷ bs))
    → length (b ∷ bs) ≤ size
    → (length (chomp (b ∷ bs)) < size
        → test_mq_service size (done (b ∷ bs)) ≡ returned (some (chomp (b ∷ bs))))
      × (length (chomp (b ∷ bs)) ≡ size → test_mq_service size (done (b ∷ bs)) ≡ returned none)
unfolding test_mq_service
test_mq_service_echo size b bs plain fits =
    let text = chomp (b ∷ bs) in
    let received = (Mq_receive_text size b bs fits).0 in
    (
      λ short.
          rw
            (
              received,
              test_mq_service,
              replicate-pos {A = ℕ} (size - length text) 0 (omega arith),
              terminated-append text (replicate {A = ℕ} (size - length text - 1) 0) plain,
            )
            refl,
      λ full.
          let none_left : size - length text ≡ 0 = omega arith in
          rw (received, test_mq_service, none_left, append-nil text, terminated-none text plain)
            refl,
    )
