-- ===== src/Notify/BySigwait/Unnoticed.antt =====
-- No message stays unnoticed by the loop round sigwait, where none is empty and the first signal does not
-- come too early.
use unix_ipc_note.Base.{
  ℕ, ◌+◌, ◌≡◌, ◌≢◌, refl, ◌∙◌, ap, Bool, true, false, List, [], ◌∷◌, arith, inl, inr,
}
use mathlib.Core.Path.{subst}
use unix_ipc_note.Notify.{arrive, loops, AllText}
use unix_ipc_note.Notify.Messages.{
  count, arrive_token, all_taken, arrive-AllText, receive-AllText, messages-AllText,
  arrive_unregistered, InOrder, arrive-InOrder, receive-InOrder, loops_until_empty, receive-flags,
  receive_empty,
}
use unix_ipc_note.Notify.BySigwait.{
  Place, opened, waiting, registering, draining, ended, killed, System, message_size, drain,
  register, Step, start, Reach, here, next,
}

-- 1 between sigwait and Mq_notify, and where the signal has ended the process.
abbrev pub owed : Place → ℕ
owed registering = 1
owed killed = 1
owed _ = 0

-- The notification is in one place: the registration, the pending signal, or the process itself.
pub record Inv (s : System) : Type 0 where
  pub one_token : count s.queue.registered + count s.queue.pending + owed s.place ≡ 1
  pub noticed : s.place ≢ draining → s.queue.registered ≡ true → s.queue.messages ≡ []
  pub living : s.place ≢ ended
  pub begun : s.place ≢ opened
  pub in_order : InOrder s.queue

start-Inv : Inv start
start-Inv = record {
  one_token = omega arith;
  noticed = λ h e. refl;
  living = λ e. cc;
  begun = λ e. cc;
  in_order = refl;
}

drain-place :
    (s : System) (b : Bool)
    → loops message_size s.queue ≡ b
    → (drain s).place ≡ elim b [ true ↦ draining | false ↦ waiting ]
drain-place s b e = ap (λ c. elim c as (λ _. Place) [ true ↦ draining | false ↦ waiting ]) e

drain-Inv : (s : System) → s.place ≡ draining → AllText s.queue.sent → Inv s → Inv (drain s)
drain-Inv s e text inv =
    elim (loops_until_empty message_size s.queue (messages-AllText s.queue inv.in_order text)) [
      | inl l ↦
          let p = drain-place s true l in
          record {
            one_token = ground (arith, p, receive-flags s.queue);
            noticed = λ h r. absurd (h p);
            living = λ r. ground (arith, p);
            begun = λ r. ground (arith, p);
            in_order = receive-InOrder s.queue inv.in_order;
          }
      | inr (l, none_left) ↦
          let p = drain-place s false l in
          record {
            one_token = ground (arith, p, receive-flags s.queue);
            noticed = λ h r. receive_empty s.queue none_left;
            living = λ r. ground (arith, p);
            begun = λ r. ground (arith, p);
            in_order = receive-InOrder s.queue inv.in_order;
          }
    ]

Step-Inv : {s t : System} → Step s t → AllText s.queue.sent → Inv s → Inv t
Step-Inv {s} (Step.arrival m room) text inv = record {
  one_token = omega (arith, arrive_token m s.queue (omega (arith, inv.one_token)), inv.one_token);
  noticed = λ h e. absurd (cc (arrive_unregistered m s.queue (inv.noticed h)));
  living = inv.living;
  begun = inv.begun;
  in_order = arrive-InOrder m s.queue inv.in_order;
}
Step-Inv {s} (Step.sig_usr1_default e f) text inv = ground arith
Step-Inv {s} (Step.block e f) text inv = ground arith
Step-Inv {s} (Step.sigwait e f) text inv = ground arith
Step-Inv {s} (Step.first_notify e f) text inv = absurd (inv.begun e)
Step-Inv {s} (Step.notify e) text inv = ground arith
Step-Inv {s} (Step.take e) text inv = drain-Inv s e text inv

register-sent : (s : System) → (register s).queue.sent ≡ s.queue.sent
register-sent s = ground arith

Step-AllText : {s t : System} → Step s t → AllText t.queue.sent → AllText s.queue.sent
Step-AllText {s} (Step.arrival m room) text = arrive-AllText m s.queue text
Step-AllText (Step.sig_usr1_default e f) text = text
Step-AllText (Step.block e f) text = text
Step-AllText (Step.sigwait e f) text = text
Step-AllText (Step.first_notify e f) text = text
Step-AllText {s} (Step.notify e) text = subst AllText (register-sent s) text
Step-AllText {s} (Step.take e) text = receive-AllText s.queue text

pub Reach-Inv : {s : System} → Reach start s → AllText s.queue.sent → Inv s
Reach-Inv here text = start-Inv
Reach-Inv (next r st) text =
    let before = Step-AllText st text in Step-Inv st before (Reach-Inv r before)

-- Where the first Mq_notify has found the queue empty and all messages sent so far hold something: when test_mq_notify_sigwait waits in sigwait and no signal
-- is pending, it has taken every message that was sent, in order, and it is registered; and at no time
-- has Mq_notify found it registered already.
pub waiting_unnoticed :
    {s : System}
    → Reach start s
    → AllText s.queue.sent
    → (s.place ≢ ended)
      × (s.place ≡ waiting
          → s.queue.pending ≡ false
          → (s.queue.taken ≡ s.queue.sent) × (s.queue.registered ≡ true))
waiting_unnoticed {s} r text =
    let inv = Reach-Inv r text in
    (
      inv.living,
      λ p n.
          let registered : s.queue.registered ≡ true = ground (arith, inv.one_token) in
          let none_left = inv.noticed (λ d. cc) registered in
          (all_taken s.queue inv.in_order none_left, registered),
    )

Step_killed :
    {s t : System}
    → Step s t
    → s.place ≡ killed
    → (t.place ≡ killed) × (t.queue.taken ≡ s.queue.taken)
unfolding arrive
Step_killed (Step.arrival m room) e = (e, refl)
Step_killed (Step.sig_usr1_default p f) e = ground arith
Step_killed (Step.block p f) e = ground arith
Step_killed (Step.sigwait p f) e = ground arith
Step_killed (Step.first_notify p f) e = ground arith
Step_killed (Step.notify p) e = ground arith
Step_killed (Step.take p) e = ground arith

Reach_killed :
    {s t : System}
    → Reach s t
    → s.place ≡ killed
    → (t.place ≡ killed) × (t.queue.taken ≡ s.queue.taken)
Reach_killed here e = (e, refl)
Reach_killed (next r st) e =
    let (e', same) = Reach_killed r e in let (e'', same') = Step_killed st e' in (e'', same' ∙ same)

-- Any message `m` that comes between the first Mq_notify and sigprocmask can end the process: it is then
-- reachable, with `m` sent, that the process is dead and takes nothing, whatever else is sent.
pub early_message_kills :
    (m : List ℕ)
    → (s : System) × Reach start s
      × (s.queue.sent ≡ m ∷ [])
      × ((t : System) → Reach s t → (t.place ≡ killed) × (t.queue.taken ≡ []))
unfolding arrive
early_message_kills m = (
  record {
    queue = record {
      messages = m ∷ [];
      registered = false;
      pending = false;
      sent = m ∷ [];
      taken = [];
    };
    place = killed;
  },
  next (next here (Step.arrival m (omega arith))) (Step.sig_usr1_default refl refl),
  refl,
  λ t r. Reach_killed r refl,
)
