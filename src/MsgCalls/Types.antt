-- ===== src/MsgCalls/Types.antt =====
-- The messages of a type in the queue, and what fits the requests.
use unix_ipc_note.Base.{
  ℕ, ◌+◌, ◌≡◌, ◌≢◌, refl, ap, ◌∙◌, Bool, true, false, List, [], ◌∷◌, ◌++◌, update, ◌==◌, arith,
}
use unix_ipc_note.Words.{if_run}
use unix_ipc_note.Dialogue.{time_cmd}
use unix_ipc_note.MsgExchange.{received}
use unix_ipc_note.MsgCalls.{Message, Service, answering, Taken, first, later}

-- A text that belongs to a request: the same, where nothing is taken off it and it is not "time".
abbrev pub Fit : List ℕ → List ℕ → Type 0
Fit asked text = received asked ≡ asked → if_run time_cmd asked ≡ false → text ≡ asked

pub received-Fit : (asked text : List ℕ) → Fit asked text → Fit asked (received text)
received-Fit asked text h e n = ap received (h e n) ∙ e

abbrev pub one_if : Bool → ℕ
one_if true = 1
one_if false = 0

-- How many messages of a type are in the queue, and with the service.
unfoldable pub count_of : ℕ → List Message → ℕ
count_of pid [] = 0
count_of pid (m ∷ ms) = one_if (m.mtype == pid) + count_of pid ms

abbrev pub with_service : ℕ → Service → ℕ
with_service pid (answering p text) = one_if (p == pid)
with_service pid _ = 0

-- Every message belongs to the last request of the client whose id is its type.
unfoldable pub FitAll : (ℕ → List ℕ) → List Message → Type 0
FitAll asked [] = Unit
FitAll asked (m ∷ ms) = Fit (asked m.mtype) m.text × FitAll asked ms

abbrev pub FitService : (ℕ → List ℕ) → Service → Type 0
FitService asked (answering p text) = Fit (asked p) text
FitService asked _ = Unit

pub count_of-end :
    (pid : ℕ) (q : List Message) (m : Message)
    → count_of pid (q ++ m ∷ []) ≡ count_of pid q + one_if (m.mtype == pid)
unfolding count_of
count_of-end pid [] m = omega arith
count_of-end pid (n ∷ q) m = omega (arith, count_of-end pid q m)

pub FitAll-end :
    (asked : ℕ → List ℕ) (q : List Message) (m : Message)
    → FitAll asked q
    → Fit (asked m.mtype) m.text
    → FitAll asked (q ++ m ∷ [])
unfolding FitAll
FitAll-end asked [] m h f = (f, tt)
FitAll-end asked (n ∷ q) m h f = (h.0, FitAll-end asked q m h.1 f)

-- A new request of a client that has nothing under way.
pub FitAll-ask :
    (asked : ℕ → List ℕ) (pid : ℕ) (text : List ℕ) (q : List Message)
    → count_of pid q ≡ 0
    → FitAll asked q
    → FitAll (update asked pid text) q
unfolding FitAll count_of
FitAll-ask asked pid text [] z h = tt
FitAll-ask asked pid text (m ∷ q) z h =
    let other : pid ≢ m.mtype = ground (arith, z) in
    let none : count_of pid q ≡ 0 = omega (arith, z) in
    let same : update asked pid text m.mtype ≡ asked m.mtype = ground (arith, other) in
    (rw same h.0, FitAll-ask asked pid text q none h.1)

pub Taken-count_of :
    {t : ℕ} {q rest : List Message} {m : Message} (pid : ℕ)
    → Taken t q m rest
    → count_of pid q ≡ one_if (t == pid) + count_of pid rest
unfolding count_of
Taken-count_of pid (first e) = rw e refl
Taken-count_of pid (later n k) = omega (arith, Taken-count_of pid k)

pub Taken-FitAll :
    {t : ℕ} {q rest : List Message} {m : Message} (asked : ℕ → List ℕ)
    → Taken t q m rest
    → FitAll asked q
    → Fit (asked t) m.text × FitAll asked rest
unfolding FitAll
Taken-FitAll asked (first e) h = (rw (← e) h.0, h.1)
Taken-FitAll asked (later n k) h = let r = Taken-FitAll asked k h.1 in (r.0, (h.0, r.1))
