-- ===== src/Notify.antt =====
-- Posix_message_queue/mqueue_test.cpp, the receivers that a signal tells of messages:
-- `test_mq_notify_signal`, `test_mq_notify_sigwait` and `test_mq_notify_pipe_select`. The queue and its
-- registration are the kernel's, as mq_notify(3) describes them: a registered process is sent its signal
-- when a message arrives at the empty queue, and is not registered any more.
pub mod Messages
pub mod BySignal
pub mod BySigwait
pub mod ByPipe
mod Tests
use unix_ipc_note.Base.{
  ℕ, zero, suc, ◌+◌, ◌<◌, ◌≡◌, ◌≢◌, refl, Bool, true, false, ◌&&◌, ◌||◌, List, [], ◌∷◌, ◌++◌,
  length, drop, replicate, ℤ, pos, negsuc, ltb, arith, append_assoc, append-nil,
}
use unix_ipc_note.System.{Outcome, returned, exited, blocked, Answer, done, failed, eagain}
use unix_ipc_note.UnixIo.ReadLaws.{trim_newline_positive, trim_newline_zero}
use unix_ipc_note.Wrappers.{Receipt, Mq_receive}

-- The queue with the registration and the pending signal of the receiver; `sent` are all messages that
-- have arrived and `taken` those that mq_receive(3) has given out, in order.
pub record Queue : Type 0 where
  pub messages : List (List ℕ)
  pub registered : Bool
  pub pending : Bool
  pub sent : List (List ℕ)
  pub taken : List (List ℕ)

abbrev pub is_empty : List (List ℕ) → Bool
is_empty [] = true
is_empty (m ∷ ms) = false

-- A message arrives.
pub arrive : List ℕ → Queue → Queue
arrive m q = record {
  messages = q.messages ++ m ∷ [];
  registered = elim (is_empty q.messages) [ true ↦ false | false ↦ q.registered ];
  pending = q.pending || (is_empty q.messages && q.registered);
  sent = q.sent ++ m ∷ [];
  taken = q.taken;
}

-- What mq_receive(3) answers on a queue with O_NONBLOCK, and what it leaves.
abbrev pub answer : List (List ℕ) → Answer (List ℕ)
answer [] = failed eagain
answer (m ∷ ms) = done m

abbrev pub take_first : List (List ℕ) → Queue → Queue
take_first [] q = q
take_first (m ∷ ms) q = record q { messages = ms; taken = q.taken ++ m ∷ [] }

abbrev pub receive : Queue → Queue
receive q = take_first q.messages q

-- if (ret <= 0) break;
abbrev pub goes_on : Outcome Receipt → Bool
goes_on (returned r) = elim r.value [ pos n ↦ ltb 0 n | negsuc n ↦ false ]
goes_on (exited v) = false
goes_on blocked = false

-- Whether the loop round Mq_receive(mqd, mq_buf, sizeof(mq_buf), nullptr) goes on.
pub loops : ℕ → Queue → Bool
loops size q = goes_on (Mq_receive size 1 (answer q.messages))

-- A text that is not empty keeps the loop going; an empty one ends it, as the empty queue does.
pub loops_lem :
    (size : ℕ) (q : Queue) (c : ℕ) (cs : List ℕ) (ms : List (List ℕ))
    → q.messages ≡ (c ∷ cs) ∷ ms
    → loops size q ≡ true
unfolding loops Mq_receive
loops_lem size q c cs ms e = rw e (
    ground (
      arith,
      trim_newline_positive 1 (length cs)
          (c ∷ (cs ++ drop (suc (length cs)) (replicate {A = ℕ} size 0))),
    ))

-- No message is empty.
abbrev pub AllText : List (List ℕ) → Type 0
AllText [] = Unit
AllText ([] ∷ ms) = ⊥
AllText ((c ∷ cs) ∷ ms) = AllText ms

pub loops_empty : (size : ℕ) (q : Queue) → q.messages ≡ [] → loops size q ≡ false
unfolding loops Mq_receive
loops_empty size q e = rw e refl

pub loops_empty_text :
    (size : ℕ) (q : Queue) (ms : List (List ℕ)) → q.messages ≡ [] ∷ ms → loops size q ≡ false
unfolding loops Mq_receive
loops_empty_text size q ms e = rw (e, trim_newline_zero 1 (replicate {A = ℕ} size 0)) refl
