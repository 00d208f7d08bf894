-- ===== src/MsgCalls/Tests.antt =====
-- Two clients at one service, and the theorem there.
use unix_ipc_note.Base.{ℕ, ◌≡◌, refl, List, [], ◌∷◌, arith, ℕ_discrete}
use unix_ipc_note.Words.{if_run}
use unix_ipc_note.MsgCalls.{System, Step, first, later, Reach, here, next}
use unix_ipc_note.MsgCalls.Own.{own_answer}

abbrev hi : List ℕ
hi = b'h' ∷ b'i' ∷ []

abbrev ok : List ℕ
ok = b'o' ∷ b'k' ∷ []

-- Both ask, the service answers the first, and the first receives behind the request of the second.
abbrev answered-Reach : (s : System) × Reach [] s
unfolding ℕ_discrete if_run unix_ipc_note.MsgExchange.received
answered-Reach =
    let asked =
      next here
        (Step.ask 7 hi (omega arith) (omega arith) refl (λ e. absurd (ground (arith, e)))) in
    let both =
      next asked
        (Step.ask 9 ok (omega arith) (omega arith) refl (λ e. absurd (ground (arith, e)))) in
    let heard = next both (Step.listen [] refl refl) in
    let answered = next heard (Step.answer (omega arith) refl) in
    (_, next answered (Step.receive 7 refl (later (omega arith) (first refl))))

own_answer_example : let s = answered-Reach.0 in s.answered 7 ≡ s.asked 7
unfolding ℕ_discrete if_run unix_ipc_note.MsgExchange.received
own_answer_example = own_answer (answered-Reach.1) refl 7 refl refl refl
