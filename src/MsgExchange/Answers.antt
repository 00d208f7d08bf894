-- ===== src/MsgExchange/Answers.antt =====
-- What the client receives.
use mathlib.Core.Path.{subst}
use unix_ipc_note.Base.{
  ℕ, ◌≡◌, ◌≢◌, ◌≤◌, length, refl, ap, sym, ◌∙◌, inl, inr, Bool, true, false, List, [], ◌∷◌, ◌++◌,
  arith, Bool-cases, if◌then◌else◌,
}
use unix_ipc_note.Words.{list_eq, if_run}
use unix_ipc_note.Dialogue.{quit, time_cmd}
use unix_ipc_note.MsgExchange.{
  max_text, received, Message, Client, typing, expecting, left, Service, listening, answering, over,
  System, client_behind, service_behind, Step, start, Reach, here, next,
}

-- Texts with no newline at the end that do not begin with "time" come through as they are.
abbrev Match : List ℕ → List ℕ → Type 0
Match asked text = received asked ≡ asked → if_run time_cmd asked ≡ false → text ≡ asked

received-Match : (asked text : List ℕ) → Match asked text → Match asked (received text)
received-Match asked text h e n = ap received (h e n) ∙ e

-- The first four bytes decide.
four_count :
    (a b c d : ℕ) (rest : List ℕ)
    → if_run quit (a ∷ b ∷ c ∷ d ∷ rest) ≡ list_eq (a ∷ b ∷ c ∷ d ∷ []) quit
unfolding if_run list_eq
four_count a b c d [] = ground arith
four_count a b c d (e ∷ rest) = ground arith

if_run-quit-received : (text : List ℕ) → if_run quit (received text) ≡ if_run quit text
unfolding received if_run list_eq
if_run-quit-received [] = refl
if_run-quit-received (a ∷ []) = ground arith
if_run-quit-received (a ∷ b ∷ []) = ground arith
if_run-quit-received (a ∷ b ∷ c ∷ []) = ground arith
if_run-quit-received (a ∷ b ∷ c ∷ d ∷ []) = ground arith
if_run-quit-received (a ∷ b ∷ c ∷ d ∷ e ∷ text) =
    four_count a b c d (received (e ∷ text)) ∙ sym (four_count a b c d (e ∷ text))

abbrev Good : List ℕ → List ℕ → Type 0
Good asked text = Match asked text × (if_run quit text ≡ false)

-- One message at most is under way, in the queue or with the service.
abbrev Shape : Client → Service → List Message → List ℕ → Type 0
Shape typing listening [] asked = Unit
Shape expecting listening (m ∷ []) asked = Good asked m.text
Shape expecting (answering text) [] asked = Good asked text
Shape left listening (m ∷ []) asked = if_run quit m.text ≡ true
Shape left over [] asked = Unit
Shape left listening [] asked = Unit
Shape _ _ _ _ = ⊥

record Inv (s : System) : Type 0 where
  shape : Shape s.client s.service s.queue s.asked
  matched : s.client ≡ typing → Match s.asked s.answered

ask-Shape :
    (sv : Service) (q : List Message) (old text : List ℕ)
    → Shape typing sv q old
    → Shape (client_behind text) sv (q ++ record { by_service = false; text = text } ∷ []) text
ask-Shape listening [] old text h = elim (Bool-cases (if_run quit text)) [
  | inl e ↦ rw e e
  | inr e ↦ rw e (λ same other. refl, e)
]
ask-Shape listening (m ∷ q) old text h = absurd h
ask-Shape (answering t) q old text h = absurd h
ask-Shape over q old text h = absurd h

receive-Shape :
    (sv : Service) (m : Message) (ms : List Message) (asked : List ℕ)
    → Shape expecting sv (m ∷ ms) asked
    → Shape typing sv ms asked × Match asked m.text
receive-Shape listening m [] asked h = (tt, h.0)
receive-Shape listening m (n ∷ ms) asked h = absurd h
receive-Shape (answering t) m ms asked h = absurd h
receive-Shape over m ms asked h = absurd h

clock_Match :
    (asked text clock : List ℕ) → Match asked text → if_run time_cmd text ≡ true → Match asked clock
clock_Match asked text clock h t same other =
    absurd (cc (sym other ∙ ap (if_run time_cmd) (sym (h same other)) ∙ t))

-- What the service does with a text that it has received.
behind-Shape :
    (text asked clock : List ℕ)
    → if_run quit clock ≡ false
    → Good asked text
    → Shape expecting (service_behind text clock) [] asked
behind-Shape text asked clock k h = elim (Bool-cases (if_run time_cmd text)) [
  | inl e ↦ rw (h.1, e) (clock_Match asked text clock h.0 e, k)
  | inr e ↦ rw (h.1, e) h
]

received-Good : (asked text : List ℕ) → Good asked text → Good asked (received text)
received-Good asked text h = (received-Match asked text h.0, if_run-quit-received text ∙ h.1)

quit_behind :
    (text clock asked : List ℕ)
    → if_run quit text ≡ true
    → Shape left (service_behind text clock) [] asked
quit_behind text clock asked e = rw e tt

listen-Shape :
    (c : Client) (m : Message) (ms : List Message) (asked clock : List ℕ)
    → if_run quit clock ≡ false
    → Shape c listening (m ∷ ms) asked
    → Shape c (service_behind (received m.text) clock) ms asked
listen-Shape typing m ms asked clock k h = absurd h
listen-Shape expecting m (n ∷ ms) asked clock k h = absurd h
listen-Shape expecting m [] asked clock k h =
    behind-Shape (received m.text) asked clock k (received-Good asked m.text h)
listen-Shape left m (n ∷ ms) asked clock k h = absurd h
listen-Shape left m [] asked clock k h =
    quit_behind (received m.text) clock asked (if_run-quit-received m.text ∙ h)

stop-Shape :
    (sv : Service) (q : List Message) (asked : List ℕ)
    → Shape typing sv q asked
    → Shape left sv q asked
stop-Shape listening [] asked h = tt
stop-Shape listening (m ∷ q) asked h = absurd h
stop-Shape (answering t) q asked h = absurd h
stop-Shape over q asked h = absurd h

answer-Shape :
    (c : Client) (q : List Message) (asked text : List ℕ)
    → Shape c (answering text) q asked
    → Shape c listening (q ++ record { by_service = true; text = text } ∷ []) asked
answer-Shape typing q asked text h = absurd h
answer-Shape expecting [] asked text h = h
answer-Shape expecting (m ∷ q) asked text h = absurd h
answer-Shape left q asked text h = absurd h

start-Inv : Inv (start [])
start-Inv = record { shape = tt; matched = λ e same other. refl }

client_behind-ne-typing : (text : List ℕ) → client_behind text ≢ typing
client_behind-ne-typing text = by_test (if_run quit text)
  where
    by_test : (b : Bool) → (if b then left else expecting) ≢ typing
    by_test true e = cc
    by_test false e = cc

Step-Inv : {s t : System} → Step s t → t.interrupted ≡ false → Inv s → Inv t
Step-Inv {s} (Step.ask text e l) calm inv = record {
  shape =
      ask-Shape s.service s.queue s.asked text
        (subst (λ c. Shape c s.service s.queue s.asked) e inv.shape);
  matched = λ p. absurd (client_behind-ne-typing text p);
}
Step-Inv {s} (Step.stop e) calm inv = record {
  shape =
      stop-Shape s.service s.queue s.asked
        (subst (λ c. Shape c s.service s.queue s.asked) e inv.shape);
  matched = λ p. cc;
}
Step-Inv {s} (Step.receive {m} {ms} e q) calm inv =
    let h = receive-Shape s.service m ms s.asked (
      subst (λ c. Shape c s.service (m ∷ ms) s.asked) e
        (subst (λ l. Shape s.client s.service l s.asked) q inv.shape)) in
    record { shape = h.0; matched = λ p. received-Match s.asked m.text h.1 }
Step-Inv {s} (Step.receive_interrupted e) calm inv = absurd (cc calm)
Step-Inv {s} (Step.listen_interrupted e) calm inv = absurd (cc calm)
Step-Inv {s} (Step.listen {m} {ms} clock k e q) calm inv = record {
  shape = listen-Shape s.client m ms s.asked clock k (
      subst (λ v. Shape s.client v (m ∷ ms) s.asked) e
        (subst (λ l. Shape s.client s.service l s.asked) q inv.shape));
  matched = inv.matched;
}
Step-Inv {s} (Step.answer {text} e) calm inv = record {
  shape =
      answer-Shape s.client s.queue s.asked text
        (subst (λ v. Shape s.client v s.queue s.asked) e inv.shape);
  matched = inv.matched;
}

-- Where there has been no interruption up to now, there was none before.
before-calm : {s t : System} → Step s t → t.interrupted ≡ false → s.interrupted ≡ false
before-calm (Step.ask text e l) calm = calm
before-calm (Step.stop e) calm = calm
before-calm (Step.receive e q) calm = calm
before-calm (Step.receive_interrupted e) calm = absurd (cc calm)
before-calm (Step.listen clock k e q) calm = calm
before-calm (Step.listen_interrupted e) calm = absurd (cc calm)
before-calm (Step.answer e) calm = calm

Reach-Inv : {s : System} → Reach [] s → s.interrupted ≡ false → Inv s
Reach-Inv here calm = start-Inv
Reach-Inv (next r st) calm = Step-Inv st calm (Reach-Inv r (before-calm st calm))

typing-Shape :
    (sv : Service) (q : List Message) (asked : List ℕ)
    → Shape typing sv q asked
    → (sv ≡ listening) × (q ≡ [])
typing-Shape listening [] asked h = (refl, refl)
typing-Shape listening (m ∷ q) asked h = absurd h
typing-Shape (answering t) q asked h = absurd h
typing-Shape over q asked h = absurd h

-- Where test_msg_service has found or made an empty queue and no signal has interrupted a Msgrcv: whenever
-- test_msg_client is back at its terminal, nothing is under way, the queue is empty and the service waits for
-- a message; and what the client has received is the text that it had sent, if that does not begin with
-- "time" and has no newline at its end, from which each receipt takes one off. All texts have at most 120 bytes.
pub answered_text :
    {s : System}
    → Reach [] s
    → s.interrupted ≡ false
    → s.client ≡ typing
    → (s.service ≡ listening)
      × (s.queue ≡ [])
      × (received s.asked ≡ s.asked → if_run time_cmd s.asked ≡ false → s.answered ≡ s.asked)
answered_text {s} r calm e =
    let inv = Reach-Inv r calm in
    let (idle, empty) =
      typing-Shape s.service s.queue s.asked
        (subst (λ c. Shape c s.service s.queue s.asked) e inv.shape) in
    (idle, empty, inv.matched e)

-- Client and service take from the same queue messages of the same type: any text of at most 120 bytes that
-- does not begin with "quit", the text "time" among them, can come back to the client as its own message, less
-- one final newline, without having been heard by the service.
pub own_request :
    (text : List ℕ)
    → if_run quit text ≡ false
    → length text ≤ max_text
    → (s : System) × Reach [] s
      × (s.client ≡ typing)
      × (s.asked ≡ text)
      × (s.answered ≡ received text)
      × (s.heard ≡ [])
own_request text n l = (
  record {
    queue = [];
    client = typing;
    service = listening;
    asked = text;
    answered = received text;
    heard = [];
    interrupted = false;
  },
  next (next here (Step.ask text refl l)) (Step.receive (rw n refl) refl),
  refl,
  refl,
  refl,
  refl,
)

-- A message that an existing queue holds is taken for the answer to the first request.
pub stale_answer :
    (found : Message) (text : List ℕ)
    → if_run quit text ≡ false
    → length text ≤ max_text
    → (s : System) × Reach (found ∷ []) s
      × (s.client ≡ typing)
      × (s.asked ≡ text)
      × (s.answered ≡ received found.text)
stale_answer found text n l = (
  record {
    queue = record { by_service = false; text = text } ∷ [];
    client = typing;
    service = listening;
    asked = text;
    answered = received found.text;
    heard = [];
    interrupted = false;
  },
  next (next here (Step.ask text refl l)) (Step.receive (rw n refl) refl),
  refl,
  refl,
  refl,
)
