-- ===== src/Notify/ByPipe/Unnoticed.antt =====
-- No message stays unnoticed by the loop round select, where none is empty.
use unix_ipc_note.Base.{ℕ, ◌+◌, ◌≡◌, ◌≢◌, refl, ap, Bool, true, false, [], arith, inl, inr}
use mathlib.Core.Path.{subst}
use unix_ipc_note.Notify.{loops, AllText}
use unix_ipc_note.Notify.Messages.{
  count, arrive_token, all_taken, arrive-AllText, receive-AllText, messages-AllText,
  arrive_unregistered, InOrder, arrive-InOrder, receive-InOrder, loops_until_empty, receive-flags,
  receive_empty,
}
use unix_ipc_note.Notify.ByPipe.{
  Place, opened, selecting, reading, registering, draining, ended, System, message_size, drain,
  register, Step, start, Reach, here, next,
}

-- 1 between the read of the byte and Mq_notify.
abbrev pub owed : Place → ℕ
owed registering = 1
owed _ = 0

-- The notification is in one place: the registration, the pending signal, the pipe, or the loop itself.
pub record Inv (s : System) : Type 0 where
  pub one_token : count s.queue.registered + count s.queue.pending + s.pipe + owed s.place ≡ 1
  pub noticed : s.place ≢ draining → s.queue.registered ≡ true → s.queue.messages ≡ []
  pub byte_there : s.place ≡ reading → s.pipe ≡ 1
  pub living : s.place ≢ ended
  pub begun : s.place ≢ opened
  pub in_order : InOrder s.queue

start-Inv : Inv start
start-Inv = record {
  one_token = omega arith;
  noticed = λ h e. refl;
  byte_there = λ e. cc;
  living = λ e. cc;
  begun = λ e. cc;
  in_order = refl;
}

drain-place :
    (s : System) (b : Bool)
    → loops message_size s.queue ≡ b
    → (drain s).place ≡ elim b [ true ↦ draining | false ↦ selecting ]
drain-place s b e = ap (λ c. elim c as (λ _. Place) [ true ↦ draining | false ↦ selecting ]) e

drain-Inv : (s : System) → s.place ≡ draining → AllText s.queue.sent → Inv s → Inv (drain s)
drain-Inv s e text inv =
    elim (loops_until_empty message_size s.queue (messages-AllText s.queue inv.in_order text)) [
      | inl l ↦
          let p = drain-place s true l in
          record {
            one_token = ground (arith, p, receive-flags s.queue);
            noticed = λ h r. absurd (h p);
            byte_there = λ r. ground (arith, p);
            living = λ r. ground (arith, p);
            begun = λ r. ground (arith, p);
            in_order = receive-InOrder s.queue inv.in_order;
          }
      | inr (l, none_left) ↦
          let p = drain-place s false l in
          record {
            one_token = ground (arith, p, receive-flags s.queue);
            noticed = λ h r. receive_empty s.queue none_left;
            byte_there = λ r. ground (arith, p);
            living = λ r. ground (arith, p);
            begun = λ r. ground (arith, p);
            in_order = receive-InOrder s.queue inv.in_order;
          }
    ]

Step-Inv : {s t : System} → Step s t → AllText s.queue.sent → Inv s → Inv t
Step-Inv {s} (Step.arrival m room) text inv = record {
  one_token = omega (arith, arrive_token m s.queue (omega (arith, inv.one_token)), inv.one_token);
  noticed = λ h e. absurd (cc (arrive_unregistered m s.queue (inv.noticed h)));
  byte_there = inv.byte_there;
  living = inv.living;
  begun = inv.begun;
  in_order = arrive-InOrder m s.queue inv.in_order;
}
Step-Inv {s} (Step.sig_usr1_02 e) text inv = ground arith
Step-Inv {s} (Step.ready e f) text inv = ground arith
Step-Inv {s} (Step.read_byte e f) text inv = ground arith
Step-Inv {s} (Step.first_notify e f) text inv = absurd (inv.begun e)
Step-Inv {s} (Step.notify e) text inv = ground arith
Step-Inv {s} (Step.take e) text inv = drain-Inv s e text inv

register-sent : (s : System) → (register s).queue.sent ≡ s.queue.sent
register-sent s = ground arith

Step-AllText : {s t : System} → Step s t → AllText t.queue.sent → AllText s.queue.sent
Step-AllText {s} (Step.arrival m room) text = arrive-AllText m s.queue text
Step-AllText (Step.sig_usr1_02 e) text = text
Step-AllText (Step.ready e f) text = text
Step-AllText (Step.read_byte e f) text = text
Step-AllText (Step.first_notify e f) text = text
Step-AllText {s} (Step.notify e) text = subst AllText (register-sent s) text
Step-AllText {s} (Step.take e) text = receive-AllText s.queue text

pub Reach-Inv : {s : System} → Reach start s → AllText s.queue.sent → Inv s
Reach-Inv here text = start-Inv
Reach-Inv (next r st) text =
    let before = Step-AllText st text in Step-Inv st before (Reach-Inv r before)

-- Where the first Mq_notify has found the queue empty and all messages sent so far hold something: when test_mq_notify_pipe_select waits in select, no signal
-- is pending and the pipe is empty, it has taken every message that was sent, in order, and it is
-- registered, so that the next one will wake it; its read of the pipe always finds exactly one byte; and
-- at no time has Mq_notify found it registered already, which would have ended the process.
pub selecting_unnoticed :
    {s : System}
    → Reach start s
    → AllText s.queue.sent
    → (s.place ≢ ended)
      × (s.place ≡ reading → s.pipe ≡ 1)
      × (s.place ≡ selecting
          → s.queue.pending ≡ false
          → s.pipe ≡ 0
          → (s.queue.taken ≡ s.queue.sent) × (s.queue.registered ≡ true))
selecting_unnoticed {s} r text =
    let inv = Reach-Inv r text in
    (
      inv.living,
      inv.byte_there,
      λ p n f.
          let registered : s.queue.registered ≡ true = ground (arith, inv.one_token) in
          let none_left = inv.noticed (λ d. cc) registered in
          (all_taken s.queue inv.in_order none_left, registered),
    )
