-- ===== src/Notify/Tests.antt =====
-- Receivers and a few messages.
use unix_ipc_note.Base.{ℕ, ◌≡◌, ◌≢◌, refl, true, false, List, [], ◌∷◌, arith}
use unix_ipc_note.UnixIo.{trim_newline}
use unix_ipc_note.Wrappers.{Mq_receive}
use unix_ipc_note.Notify.{Queue, arrive, loops}
use unix_ipc_note.Notify.BySignal
use unix_ipc_note.Notify.BySignal.Unnoticed.{asleep_unnoticed}
use unix_ipc_note.Notify.BySignal.Stuck.{empty_message_hangs}
use unix_ipc_note.Notify.ByPipe
use unix_ipc_note.Notify.ByPipe.Unnoticed.{selecting_unnoticed}
use unix_ipc_note.Notify.BySigwait
use unix_ipc_note.Notify.BySigwait.Unnoticed.{waiting_unnoticed, early_message_kills}

abbrev text : List ℕ
text = b'h' ∷ b'i' ∷ []

-- Two messages have come and been taken, and the receiver is registered again.
abbrev all_done : Queue
all_done = record {
  messages = [];
  registered = true;
  pending = false;
  sent = text ∷ text ∷ [];
  taken = text ∷ text ∷ [];
}

abbrev asleep_again : BySignal.System
asleep_again = record { queue = all_done; mq_flag = false; place = BySignal.asleep }

asleep_run : BySignal.Reach BySignal.start asleep_again
unfolding arrive loops Mq_receive trim_newline
asleep_run =
    let waken =
      BySignal.next
        (BySignal.next
          (BySignal.next
            (BySignal.next
              (BySignal.next
                (BySignal.next
                  (BySignal.next BySignal.here (BySignal.Step.arrival text (omega arith)))
                  (BySignal.Step.sig_usr1 refl refl))
                (BySignal.Step.block refl))
              (BySignal.Step.flag_set refl refl))
            (BySignal.Step.reset refl))
          (BySignal.Step.arrival text (omega arith)))
        (BySignal.Step.notify refl) in
    let drained =
      BySignal.next
        (BySignal.next (BySignal.next waken (BySignal.Step.take refl)) (BySignal.Step.take refl))
        (BySignal.Step.take refl) in
    BySignal.next
      (BySignal.next (BySignal.next drained (BySignal.Step.unblock refl))
        (BySignal.Step.block refl))
      (BySignal.Step.flag_clear refl refl)

asleep_unnoticed_example :
    (asleep_again.place ≢ BySignal.ended)
    × (asleep_again.place ≡ BySignal.asleep
        → asleep_again.queue.pending ≡ false
        → (asleep_again.queue.taken ≡ asleep_again.queue.sent)
          × (asleep_again.queue.registered ≡ true))
asleep_unnoticed_example = asleep_unnoticed asleep_run tt

empty_message_hangs_example :
    (s : BySignal.System) × BySignal.Reach BySignal.start s
    × (s.queue.sent ≡ [] ∷ text ∷ [])
    × ((t : BySignal.System)
        → BySignal.Reach s t
        → (t.place ≡ BySignal.asleep) × (t.queue.taken ≡ [] ∷ []))
empty_message_hangs_example = empty_message_hangs text

-- One message has come and been taken.
abbrev one_done : Queue
one_done = record {
  messages = [];
  registered = true;
  pending = false;
  sent = text ∷ [];
  taken = text ∷ [];
}

abbrev selecting_again : ByPipe.System
selecting_again = record { queue = one_done; pipe = 0; place = ByPipe.selecting }

selecting_run : ByPipe.Reach ByPipe.start selecting_again
unfolding arrive loops Mq_receive trim_newline
selecting_run =
    let waken =
      ByPipe.next
        (ByPipe.next (ByPipe.next ByPipe.here (ByPipe.Step.arrival text (omega arith)))
          (ByPipe.Step.sig_usr1_02 refl))
        (ByPipe.Step.ready refl (omega arith)) in
    let registered =
      ByPipe.next (ByPipe.next waken (ByPipe.Step.read_byte refl refl)) (ByPipe.Step.notify refl) in
    ByPipe.next (ByPipe.next registered (ByPipe.Step.take refl)) (ByPipe.Step.take refl)

selecting_unnoticed_example :
    (selecting_again.place ≢ ByPipe.ended)
    × (selecting_again.place ≡ ByPipe.reading → selecting_again.pipe ≡ 1)
    × (selecting_again.place ≡ ByPipe.selecting
        → selecting_again.queue.pending ≡ false
        → selecting_again.pipe ≡ 0
        → (selecting_again.queue.taken ≡ selecting_again.queue.sent)
          × (selecting_again.queue.registered ≡ true))
selecting_unnoticed_example = selecting_unnoticed selecting_run tt

abbrev waiting_again : BySigwait.System
waiting_again = record { queue = one_done; place = BySigwait.waiting }

waiting_run : BySigwait.Reach BySigwait.start waiting_again
unfolding arrive loops Mq_receive trim_newline
waiting_run =
    let waken =
      BySigwait.next
        (BySigwait.next (BySigwait.next BySigwait.here (BySigwait.Step.block refl refl))
          (BySigwait.Step.arrival text (omega arith)))
        (BySigwait.Step.sigwait refl refl) in
    BySigwait.next
      (BySigwait.next (BySigwait.next waken (BySigwait.Step.notify refl))
        (BySigwait.Step.take refl))
      (BySigwait.Step.take refl)

waiting_unnoticed_example :
    (waiting_again.place ≢ BySigwait.ended)
    × (waiting_again.place ≡ BySigwait.waiting
        → waiting_again.queue.pending ≡ false
        → (waiting_again.queue.taken ≡ waiting_again.queue.sent)
          × (waiting_again.queue.registered ≡ true))
waiting_unnoticed_example = waiting_unnoticed waiting_run tt

early_message_kills_example :
    (s : BySigwait.System) × BySigwait.Reach BySigwait.start s
    × (s.queue.sent ≡ text ∷ [])
    × ((t : BySigwait.System)
        → BySigwait.Reach s t
        → (t.place ≡ BySigwait.killed) × (t.queue.taken ≡ []))
early_message_kills_example = early_message_kills text
