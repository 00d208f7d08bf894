-- ===== src/MsgCalls/Own.antt =====
-- Each client receives what belongs to its own request.
use mathlib.Core.Path.{subst}
use unix_ipc_note.Base.{
  ℕ, ◌+◌, ◌≤◌, ◌≡◌, ◌≢◌, refl, ap, sym, ◌∙◌, inl, inr, true, false, List, [], ◌∷◌, ◌++◌, update,
  ◌==◌, arith, Bool-cases, ℕ_discrete,
}
use unix_ipc_note.Words.{if_run}
use unix_ipc_note.Dialogue.{quit, time_cmd}
use unix_ipc_note.MsgExchange.{received}
use unix_ipc_note.MsgCalls.{
  Message, Service, listening, answering, leaving, gone, failed, System, Taken, reply_to, Step,
  start, Reach, here, next,
}
use unix_ipc_note.MsgCalls.Types.{
  Fit, received-Fit, one_if, count_of, with_service, FitAll, FitService, count_of-end, FitAll-end,
  FitAll-ask, Taken-count_of, Taken-FitAll,
}

record Inv (s : System) : Type 0 where
  balanced : (pid : ℕ) → count_of pid s.queue + with_service pid s.service ≤ one_if (s.waiting pid)
  fit_queue : FitAll s.asked s.queue
  fit_service : FitService s.asked s.service
  fit_answers : (pid : ℕ) → s.waiting pid ≡ false → Fit (s.asked pid) (s.answered pid)

start-Inv : Inv (start [])
unfolding FitAll count_of
start-Inv = record {
  balanced = λ pid. omega arith;
  fit_queue = tt;
  fit_service = tt;
  fit_answers = λ pid w e n. refl;
}

FitService-ask :
    (asked : ℕ → List ℕ) (pid : ℕ) (text : List ℕ) (v : Service)
    → with_service pid v ≡ 0
    → FitService asked v
    → FitService (update asked pid text) v
FitService-ask asked pid text listening z h = tt
FitService-ask asked pid text (answering p t) z h =
    let other : pid ≢ p = ground (arith, z) in
    let same : update asked pid text p ≡ asked p = ground (arith, other) in rw same h
FitService-ask asked pid text leaving z h = tt
FitService-ask asked pid text gone z h = tt
FitService-ask asked pid text failed z h = tt

-- A client asks when nothing of its own is under way.
ask-balanced :
    {s : System} (inv : Inv s) (pid p : ℕ) (text : List ℕ)
    → s.waiting pid ≡ false
    → count_of p (s.queue ++ record { mtype = pid; text = text } ∷ []) + with_service p s.service
      ≤ one_if (update s.waiting pid true p)
ask-balanced {s} inv pid p text w =
    let end = count_of-end p s.queue (record { mtype = pid; text = text }) in
    let old = inv.balanced p in
    let mine : count_of pid s.queue + with_service pid s.service ≤ 0 =
      ground (arith, inv.balanced pid) in
    elim (ℕ_discrete pid p) [
      | yes q ↦
          let none : count_of p s.queue + with_service p s.service ≤ 0 = rw (← q) mine in
          ground (arith, end, none)
      | no q ↦ ground (arith, end, old)
    ]

receive-balanced :
    {s : System} (inv : Inv s) (pid p : ℕ) {m : Message} {rest : List Message}
    → s.waiting pid ≡ true
    → Taken pid s.queue m rest
    → count_of p rest + with_service p s.service ≤ one_if (update s.waiting pid false p)
receive-balanced {s} inv pid p w k =
    let less = Taken-count_of p k in
    let old = inv.balanced p in
    elim (ℕ_discrete pid p) [
      | yes q ↦ let waits : s.waiting p ≡ true = rw (← q) w in ground (arith, less, old, waits)
      | no q ↦ ground (arith, less, old)
    ]

clock_Fit :
    (asked text clock : List ℕ) → Fit asked text → if_run time_cmd text ≡ true → Fit asked clock
clock_Fit asked text clock h t same other =
    absurd (cc (sym other ∙ ap (if_run time_cmd) (sym (h same other)) ∙ t))

-- What the service does with a message.
reply-Fit :
    (asked : ℕ → List ℕ) (m : Message) (clock : List ℕ)
    → Fit (asked m.mtype) m.text
    → FitService asked (reply_to m clock)
reply-Fit asked m clock h =
    let fit = received-Fit (asked m.mtype) m.text h in
    elim (Bool-cases (if_run quit (received m.text))) [
      | inl e ↦ rw e tt
      | inr e ↦ elim (Bool-cases (if_run time_cmd (received m.text))) [
        | inl t ↦ rw (e, t) (clock_Fit (asked m.mtype) (received m.text) clock fit t)
        | inr t ↦ rw (e, t) fit
      ]
    ]

reply-with_service :
    (p : ℕ) (m : Message) (clock : List ℕ)
    → with_service p (reply_to m clock) ≤ one_if (m.mtype == p)
reply-with_service p m clock = elim (Bool-cases (if_run quit (received m.text))) [
  | inl e ↦ rw e (omega arith)
  | inr e ↦ rw e (omega arith)
]

Step-Inv : {s t : System} → Step s t → t.interrupted ≡ false → Inv s → Inv t
unfolding FitAll count_of
Step-Inv {s} (Step.ask pid text some short w live) calm inv =
    let mine : count_of pid s.queue + with_service pid s.service ≤ 0 =
      ground (arith, inv.balanced pid) in
    let kept = FitAll-ask s.asked pid text s.queue (omega (arith, mine)) inv.fit_queue in
    record {
      balanced = λ p. ask-balanced inv pid p text w;
      fit_queue =
          FitAll-end (update s.asked pid text) s.queue (record { mtype = pid; text = text }) kept
            (λ same other. let new : update s.asked pid text pid ≡ text = ground arith in sym new);
      fit_service = FitService-ask s.asked pid text s.service (omega (arith, mine)) inv.fit_service;
      fit_answers = λ p v. elim (ℕ_discrete pid p) [
        | yes q ↦ absurd (ground (arith, v))
        | no q ↦
            let same : update s.asked pid text p ≡ s.asked p = ground (arith, q) in
            let free : s.waiting p ≡ false = ground (arith, v) in rw same (inv.fit_answers p free)
      ];
    }
Step-Inv {s} (Step.receive pid {m} w k) calm inv =
    let taken = Taken-FitAll s.asked k inv.fit_queue in
    record {
      balanced = λ p. receive-balanced inv pid p w k;
      fit_queue = taken.1;
      fit_service = inv.fit_service;
      fit_answers = λ p v. elim (ℕ_discrete pid p) [
        | yes q ↦
            let new : update s.answered pid (received m.text) p ≡ received m.text =
              ground (arith, q) in
            rw (new, ← q) (received-Fit (s.asked pid) m.text taken.0)
        | no q ↦
            let same : update s.answered pid (received m.text) p ≡ s.answered p =
              ground (arith, q) in
            let free : s.waiting p ≡ false = ground (arith, v) in rw same (inv.fit_answers p free)
      ];
    }
Step-Inv {s} (Step.receive_interrupted pid w) calm inv = absurd (cc calm)
Step-Inv {s} (Step.listen_interrupted e) calm inv = absurd (cc calm)
Step-Inv {s} (Step.refused {text} e) calm inv = record {
  balanced = λ p. omega (arith, inv.balanced p);
  fit_queue = inv.fit_queue;
  fit_service = tt;
  fit_answers = inv.fit_answers;
}
Step-Inv {s} (Step.listen {m} {ms} clock e q) calm inv =
    let fits : FitAll s.asked (m ∷ ms) = subst (FitAll s.asked) q inv.fit_queue in
    record {
      balanced = λ p.
          let old : count_of p (m ∷ ms) + 0 ≤ one_if (s.waiting p) =
            subst (λ l. count_of p l + 0 ≤ one_if (s.waiting p)) q
              (subst (λ v. count_of p s.queue + with_service p v ≤ one_if (s.waiting p)) e
                (inv.balanced p)) in
          omega (arith, old, reply-with_service p m clock);
      fit_queue = fits.1;
      fit_service = reply-Fit s.asked m clock fits.0;
      fit_answers = inv.fit_answers;
    }
Step-Inv {s} (Step.answer {pid} {text} some e) calm inv =
    let fits : Fit (s.asked pid) text = subst (FitService s.asked) e inv.fit_service in
    record {
      balanced = λ p.
          let old : count_of p s.queue + one_if (pid == p) ≤ one_if (s.waiting p) =
            subst (λ v. count_of p s.queue + with_service p v ≤ one_if (s.waiting p)) e
              (inv.balanced p) in
          omega (arith, old, count_of-end p s.queue (record { mtype = pid; text = text }));
      fit_queue =
          FitAll-end s.asked s.queue (record { mtype = pid; text = text }) inv.fit_queue fits;
      fit_service = tt;
      fit_answers = inv.fit_answers;
    }
Step-Inv {s} (Step.remove e) calm inv = record {
  balanced = λ p. omega arith;
  fit_queue = tt;
  fit_service = tt;
  fit_answers = inv.fit_answers;
}

-- Where there has been no interruption up to now, there was none before.
before-calm : {s t : System} → Step s t → t.interrupted ≡ false → s.interrupted ≡ false
before-calm (Step.ask pid text some short w live) calm = calm
before-calm (Step.receive pid w k) calm = calm
before-calm (Step.receive_interrupted pid w) calm = absurd (cc calm)
before-calm (Step.listen clock e q) calm = calm
before-calm (Step.listen_interrupted e) calm = absurd (cc calm)
before-calm (Step.refused e) calm = calm
before-calm (Step.answer some e) calm = calm
before-calm (Step.remove e) calm = calm

Reach-Inv : {s : System} → Reach [] s → s.interrupted ≡ false → Inv s
Reach-Inv here calm = start-Inv
Reach-Inv (next r st) calm = Step-Inv st calm (Reach-Inv r (before-calm st calm))

-- Where test_msg_service_echo has found or made an empty queue, no signal has interrupted a Msgrcv, and no
-- text is longer than 120 bytes, however many clients there are: when test_msg_client_call of a process is
-- back at its terminal, and the text that it had sent does not begin with "time" and has no newline at its
-- end, from which each receipt takes one off, then what it has received is that text, never that of
-- another.
pub own_answer :
    {s : System}
    → Reach [] s
    → s.interrupted ≡ false
    → (pid : ℕ) → s.waiting pid ≡ false
    → received (s.asked pid) ≡ s.asked pid
    → if_run time_cmd (s.asked pid) ≡ false
    → s.answered pid ≡ s.asked pid
own_answer {s} r calm pid w same other = (Reach-Inv r calm).fit_answers pid w same other

-- Under the same conditions but those on the text, a process that is back at its terminal has nothing in the
-- queue or with the service.
pub none_under_way :
    {s : System}
    → Reach [] s
    → s.interrupted ≡ false
    → (pid : ℕ) → s.waiting pid ≡ false
    → count_of pid s.queue + with_service pid s.service ≡ 0
none_under_way {s} r calm pid w = let inv = Reach-Inv r calm in ground (arith, inv.balanced pid)
