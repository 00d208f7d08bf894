-- ===== src/Notify/BySignal/Unnoticed.antt =====
-- No message stays unnoticed, where none is empty.
use unix_ipc_note.Base.{ℕ, ◌+◌, ◌≡◌, ◌≢◌, refl, ap, Bool, true, false, [], arith, inl, inr}
use mathlib.Core.Path.{subst}
use unix_ipc_note.Notify.{loops, AllText}
use unix_ipc_note.Notify.Messages.{
  count, arrive_token, all_taken, arrive-AllText, receive-AllText, messages-AllText,
  arrive_unregistered, InOrder, arrive-InOrder, receive-InOrder, loops_until_empty, receive-flags,
  receive_empty,
}
use unix_ipc_note.Notify.BySignal.{
  Place, opened, asleep, resetting, registering, draining, to_unblock, ended, System, message_size,
  drain, register, Step, start, Reach, here, next,
}

-- 1 between the reset of mqFlag and Mq_notify.
abbrev pub owed : Place → ℕ
owed registering = 1
owed _ = 0

-- The notification is in one place: the registration, the pending signal, mqFlag, or the loop itself.
pub record Inv (s : System) : Type 0 where
  pub one_token :
      count s.queue.registered + count s.queue.pending + count s.mq_flag + owed s.place ≡ 1
  pub noticed : s.place ≢ draining → s.queue.registered ≡ true → s.queue.messages ≡ []
  pub reset_set : s.place ≡ resetting → s.mq_flag ≡ true
  pub asleep_clear : s.place ≡ asleep → s.mq_flag ≡ false
  pub living : s.place ≢ ended
  pub begun : s.place ≢ opened
  pub in_order : InOrder s.queue

start-Inv : Inv start
start-Inv = record {
  one_token = omega arith;
  noticed = λ h e. refl;
  reset_set = λ e. cc;
  asleep_clear = λ e. refl;
  living = λ e. cc;
  begun = λ e. cc;
  in_order = refl;
}

drain-place :
    (s : System) (b : Bool)
    → loops message_size s.queue ≡ b
    → (drain s).place ≡ elim b [ true ↦ draining | false ↦ to_unblock ]
drain-place s b e = ap (λ c. elim c as (λ _. Place) [ true ↦ draining | false ↦ to_unblock ]) e

drain-Inv : (s : System) → s.place ≡ draining → AllText s.queue.sent → Inv s → Inv (drain s)
drain-Inv s e text inv =
    elim (loops_until_empty message_size s.queue (messages-AllText s.queue inv.in_order text)) [
      | inl l ↦
          let p = drain-place s true l in
          record {
            one_token = ground (arith, p, receive-flags s.queue);
            noticed = λ h r. absurd (h p);
            reset_set = λ r. ground (arith, p);
            asleep_clear = λ r. ground (arith, p);
            living = λ r. ground (arith, p);
            begun = λ r. ground (arith, p);
            in_order = receive-InOrder s.queue inv.in_order;
          }
      | inr (l, none_left) ↦
          let p = drain-place s false l in
          record {
            one_token = ground (arith, p, receive-flags s.queue);
            noticed = λ h r. receive_empty s.queue none_left;
            reset_set = λ r. ground (arith, p);
            asleep_clear = λ r. ground (arith, p);
            living = λ r. ground (arith, p);
            begun = λ r. ground (arith, p);
            in_order = receive-InOrder s.queue inv.in_order;
          }
    ]

Step-Inv : {s t : System} → Step s t → AllText s.queue.sent → Inv s → Inv t
Step-Inv {s} (Step.arrival m room) text inv = record {
  one_token = omega (arith, arrive_token m s.queue (omega (arith, inv.one_token)), inv.one_token);
  noticed = λ h e. absurd (cc (arrive_unregistered m s.queue (inv.noticed h)));
  reset_set = inv.reset_set;
  asleep_clear = inv.asleep_clear;
  living = inv.living;
  begun = inv.begun;
  in_order = arrive-InOrder m s.queue inv.in_order;
}
Step-Inv {s} (Step.sig_usr1 e o) text inv = ground arith
Step-Inv {s} (Step.block e) text inv = ground arith
Step-Inv {s} (Step.flag_set e f) text inv = ground arith
Step-Inv {s} (Step.flag_clear e f) text inv = ground arith
Step-Inv {s} (Step.reset e) text inv = ground arith
Step-Inv {s} (Step.first_notify e f) text inv = absurd (inv.begun e)
Step-Inv {s} (Step.notify e) text inv = ground arith
Step-Inv {s} (Step.take e) text inv = drain-Inv s e text inv
Step-Inv {s} (Step.unblock e) text inv = ground arith

register-sent : (s : System) → (register s).queue.sent ≡ s.queue.sent
register-sent s = ground arith

Step-AllText : {s t : System} → Step s t → AllText t.queue.sent → AllText s.queue.sent
Step-AllText {s} (Step.arrival m room) text = arrive-AllText m s.queue text
Step-AllText (Step.sig_usr1 e o) text = text
Step-AllText (Step.block e) text = text
Step-AllText (Step.flag_set e f) text = text
Step-AllText (Step.flag_clear e f) text = text
Step-AllText (Step.reset e) text = text
Step-AllText (Step.first_notify e f) text = text
Step-AllText {s} (Step.notify e) text = subst AllText (register-sent s) text
Step-AllText {s} (Step.take e) text = receive-AllText s.queue text
Step-AllText (Step.unblock e) text = text

pub Reach-Inv : {s : System} → Reach start s → AllText s.queue.sent → Inv s
Reach-Inv here text = start-Inv
Reach-Inv (next r st) text =
    let before = Step-AllText st text in Step-Inv st before (Reach-Inv r before)

-- Where the first Mq_notify has found the queue empty and all messages sent so far hold something: when test_mq_notify_signal sleeps in sigsuspend and no
-- signal is pending for it, it has taken every message that was sent, in order, and it is registered, so
-- that the next one will wake it; and at no time has Mq_notify found it registered already, which would
-- have ended the process.
pub asleep_unnoticed :
    {s : System}
    → Reach start s
    → AllText s.queue.sent
    → (s.place ≢ ended)
      × (s.place ≡ asleep
          → s.queue.pending ≡ false
          → (s.queue.taken ≡ s.queue.sent) × (s.queue.registered ≡ true))
asleep_unnoticed {s} r text =
    let inv = Reach-Inv r text in
    (
      inv.living,
      λ p n.
          let registered : s.queue.registered ≡ true =
            ground (arith, inv.one_token, inv.asleep_clear p) in
          let none_left = inv.noticed (λ d. cc) registered in
          (all_taken s.queue inv.in_order none_left, registered),
    )
