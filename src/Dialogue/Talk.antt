-- ===== src/Dialogue/Talk.antt =====
-- A whole session of the service.
use unix_ipc_note.Base.{◌≡◌, refl, ap, true, false, List, [], ◌∷◌, ◌++◌, length, pos}
use unix_ipc_note.System.{returned}
use unix_ipc_note.Words.{if_run}
use unix_ipc_note.Mesg.{Mesg, header}
use unix_ipc_note.Dialogue.{quit, Turn, Sent, behind, mesg_service}
use unix_ipc_note.Dialogue.Echo.{
  Line, bytes, IsLine, arriving, answer, Serves, service_round-Replies, service_round_quits,
}

-- A turn of the service with the line that arrives in it.
abbrev pub Visit : Type 0
Visit = Turn × Line

-- All visits are lines that are not requests to quit.
abbrev pub AllServed : List Visit → Type 0
AllServed [] = Unit
AllServed ((t, l) ∷ vs) = Serves t l × (if_run quit (bytes l) ≡ false) × AllServed vs

abbrev pub replies : List Visit → Sent
replies [] = []
replies ((t, l) ∷ vs) =
    (header 2 (pos (length (answer t (bytes l)))) ++ answer t (bytes l)) ∷ replies vs

abbrev pub turns : List Visit → List Turn → List Turn
turns [] more = more
turns ((t, l) ∷ vs) more = t ∷ turns vs more

-- Lines of two to 4079 bytes, with no 0 in them and no newline at their ends, each of which reaches the service
-- in two reads, the header and the payload; all replies are taken whole by the pipe, and the clock's texts
-- hold no 0. Given any number of them that do not begin with "quit" and then one that does, the service
-- sends one message for each of the former, in order, with the line itself or, where it begins with
-- "time", the clock's text, and then returns; what would come later it does not read.
pub mesg_service-replies :
    (old : Mesg) (vs : List Visit) (t : Turn) (l : Line) (later : List Turn)
    → AllServed vs
    → IsLine l
    → t.pipe ≡ arriving l
    → if_run quit (bytes l) ≡ true
    → mesg_service old (turns vs (t ∷ later)) ≡ returned (replies vs)
unfolding mesg_service
mesg_service-replies old [] t l later served v e stops =
    rw (service_round_quits old t l v e stops, mesg_service) refl
mesg_service-replies old ((u, k) ∷ vs) t l later served v e stops =
    let (m, replied) = service_round-Replies old u k served.0 served.1 in
    rw (replied, mesg_service)
      (ap (behind _) (mesg_service-replies m vs t l later served.2 v e stops))
