-- ===== src/Notify/BySignal/Stuck.antt =====
-- An empty message ends the receiver's loop as the empty queue does.
use unix_ipc_note.Base.{ℕ, ◌≡◌, refl, ap, ◌∙◌, true, false, List, [], ◌∷◌, ◌++◌, arith}
use mathlib.Core.Path.{subst}
use unix_ipc_note.Notify.{is_empty, arrive, loops_empty_text}
use unix_ipc_note.Notify.BySignal.{
  Place, opened, asleep, draining, to_unblock, System, drain, message_size, Step, start, Reach,
  here, next,
}

-- Asleep, registered, and the queue not empty: no arrival tells of itself any more.
record Deaf (s : System) : Type 0 where
  deaf_place : s.place ≡ asleep
  deaf_registered : s.queue.registered ≡ true
  deaf_pending : s.queue.pending ≡ false
  deaf_messages : is_empty s.queue.messages ≡ false

is_empty-append : (ms : List (List ℕ)) (m : List ℕ) → is_empty (ms ++ m ∷ []) ≡ false
is_empty-append [] m = refl
is_empty-append (n ∷ ms) m = refl

Step-Deaf : {s t : System} → Step s t → Deaf s → Deaf t × (t.queue.taken ≡ s.queue.taken)
unfolding arrive
Step-Deaf {s} (Step.arrival m room) d = ground (arith, is_empty-append s.queue.messages m)
Step-Deaf (Step.sig_usr1 e o) d = ground arith
Step-Deaf (Step.block e) d = ground arith
Step-Deaf (Step.flag_set e f) d = ground arith
Step-Deaf (Step.flag_clear e f) d = ground arith
Step-Deaf (Step.reset e) d = ground arith
Step-Deaf (Step.first_notify e f) d = ground arith
Step-Deaf (Step.notify e) d = ground arith
Step-Deaf (Step.take e) d = ground arith
Step-Deaf (Step.unblock e) d = ground arith

Reach-Deaf : {s t : System} → Deaf s → Reach s t → Deaf t × (t.queue.taken ≡ s.queue.taken)
Reach-Deaf d here = (d, refl)
Reach-Deaf d (next r st) =
    let (d', e) = Reach-Deaf d r in let (d'', e') = Step-Deaf st d' in (d'', e' ∙ e)

-- The receiver asleep behind an empty message, with `m` still in the queue.
abbrev deaf_to : List ℕ → System
deaf_to m = record {
  queue = record {
    messages = m ∷ [];
    registered = true;
    pending = false;
    sent = [] ∷ m ∷ [];
    taken = [] ∷ [];
  };
  mq_flag = false;
  place = asleep;
}

-- The same before the receipt of the empty message.
abbrev at_empty : List ℕ → System
at_empty m = record {
  queue = record {
    messages = [] ∷ m ∷ [];
    registered = true;
    pending = false;
    sent = [] ∷ m ∷ [];
    taken = [];
  };
  mq_flag = false;
  place = draining;
}

reach_empty : (m : List ℕ) → Reach start (at_empty m)
unfolding arrive
reach_empty m =
    next
      (next
        (next
          (next
            (next (next (next here (Step.arrival [] (omega arith))) (Step.arrival m (omega arith)))
              (Step.sig_usr1 refl refl))
            (Step.block refl))
          (Step.flag_set refl refl))
        (Step.reset refl))
      (Step.notify refl)

drained : (m : List ℕ) → drain (at_empty m) ≡ record (deaf_to m) { place = to_unblock }
drained m =
    ap
      (λ b. record (deaf_to m) {
        place = elim b as (λ _. Place) [ true ↦ draining | false ↦ to_unblock ];
      })
      (loops_empty_text message_size (at_empty m).queue (m ∷ []) refl)

run : (m : List ℕ) → Reach start (deaf_to m)
run m =
    let reach_drained = subst (Reach start) (drained m) (next (reach_empty m) (Step.take refl)) in
    next (next (next reach_drained (Step.unblock refl)) (Step.block refl))
      (Step.flag_clear refl refl)

-- Behind Mq_open, and asleep with `m` in the queue and nothing taken.
abbrev pub new_queue : System
new_queue = record {
  queue = record { messages = []; registered = false; pending = false; sent = []; taken = [] };
  mq_flag = false;
  place = opened;
}

abbrev deaf_from_start : List ℕ → System
deaf_from_start m = record {
  queue = record {
    messages = m ∷ [];
    registered = true;
    pending = false;
    sent = m ∷ [];
    taken = [];
  };
  mq_flag = false;
  place = asleep;
}

-- Any message `m` that comes between Mq_open and the first Mq_notify: test_mq_notify_signal can come to sleep
-- with the message in the queue, and from there, whatever arrives, it sleeps for ever and takes nothing.
pub late_notify_hangs :
    (m : List ℕ)
    → (s : System) × Reach new_queue s
      × (s.queue.sent ≡ m ∷ [])
      × ((t : System) → Reach s t → (t.place ≡ asleep) × (t.queue.taken ≡ []))
unfolding arrive
late_notify_hangs m = (
  deaf_from_start m,
  next
      (next (next (next here (Step.arrival m (omega arith))) (Step.first_notify refl refl))
        (Step.block refl))
      (Step.flag_clear refl refl),
  refl,
  λ t r.
      let deaf : Deaf (deaf_from_start m) = record {
        deaf_place = refl;
        deaf_registered = refl;
        deaf_pending = refl;
        deaf_messages = refl;
      } in
      let (d, e) = Reach-Deaf deaf r in (d.deaf_place, e),
)

-- An empty message, with another behind it: test_mq_notify_signal can come to sleep having taken the
-- empty one only, and from there, whatever arrives, it sleeps for ever and takes nothing more.
pub empty_message_hangs :
    (m : List ℕ)
    → (s : System) × Reach start s
      × (s.queue.sent ≡ [] ∷ m ∷ [])
      × ((t : System) → Reach s t → (t.place ≡ asleep) × (t.queue.taken ≡ [] ∷ []))
empty_message_hangs m = (
  deaf_to m,
  run m,
  refl,
  λ t r.
      let deaf : Deaf (deaf_to m) = record {
        deaf_place = refl;
        deaf_registered = refl;
        deaf_pending = refl;
        deaf_messages = refl;
      } in
      let (d, e) = Reach-Deaf deaf r in (d.deaf_place, e),
)
