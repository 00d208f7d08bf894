-- ===== src/FileServer/Request.antt =====
-- What the client asks for is what the service reads.
use unix_ipc_note.Base.{
  ◌%◌, ltb, true, ℕ, ◌+◌, ◌-◌, ◌<◌, ◌≡◌, ◌≢◌, refl, ap, ◌∙◌, false, List, [], ◌∷◌, ◌++◌, length,
  replicate, replicate-pos, length-append, append_assoc, pos, int_eq, arith, ◌==◌,
}
use unix_ipc_note.System.{Outcome, returned, ReadAnswer, got, WriteAnswer}
use unix_ipc_note.UnixIo.{newline, Reading, Read}
use unix_ipc_note.UnixIo.ReadLaws.{chomp, interrupted, Read_text}
use unix_ipc_note.UnixIo.WriteLaws.{Delivers, Write-Delivers}
use unix_ipc_note.Words.{c_string}
use unix_ipc_note.Words.Strings.{NoZero, NoZero-append, c_string-append}
use unix_ipc_note.Words.Numbers.{limit, strtol, strtol-to_string, to_string-NoZero}
use unix_ipc_note.FileLock.{to_string}
use unix_ipc_note.Broadcast.{maxline}
use unix_ipc_note.FileServer.{
  address, client_request, parse_request, Round, reply, one_service_round,
}

-- The last byte is no newline.
abbrev pub Unbroken : List ℕ → Type 0
Unbroken [] = Unit
Unbroken (c ∷ []) = c ≢ newline
Unbroken (c ∷ d ∷ cs) = Unbroken (d ∷ cs)

chomp-Unbroken : (cs : List ℕ) → Unbroken cs → chomp cs ≡ cs
unfolding chomp
chomp-Unbroken [] h = refl
chomp-Unbroken (c ∷ []) h = refl
chomp-Unbroken (c ∷ d ∷ []) h = ground arith
chomp-Unbroken (c ∷ d ∷ e ∷ cs) h = ap (◌∷◌ c) (chomp-Unbroken (d ∷ e ∷ cs) h)

Unbroken-append : (xs : List ℕ) (c : ℕ) (cs : List ℕ) → Unbroken (c ∷ cs) → Unbroken (xs ++ c ∷ cs)
Unbroken-append [] c cs h = h
Unbroken-append (x ∷ []) c cs h = h
Unbroken-append (x ∷ y ∷ xs) c cs h = Unbroken-append (y ∷ xs) c cs h

-- The newline that ends a line is taken off.
chomp-line : (c : ℕ) (cs : List ℕ) → chomp (c ∷ (cs ++ newline ∷ [])) ≡ c ∷ cs
unfolding chomp
chomp-line c [] = ground arith
chomp-line c (d ∷ []) = ap (◌∷◌ c) (chomp-line d [])
chomp-line c (d ∷ e ∷ cs) = ap (◌∷◌ c) (chomp-line d (e ∷ cs))

-- What a text in a buffer is, read as a C string.
c_string-buffer :
    (n : ℕ) (text : List ℕ)
    → NoZero text
    → length text < n
    → c_string (text ++ replicate (n - length text) 0) ≡ text
c_string-buffer n text plain room =
    ap (λ zeros. c_string (text ++ zeros)) (replicate-pos (n - length text) 0 (omega arith))
    ∙ c_string-append text (replicate (n - length text - 1) 0) plain

-- A path: some bytes, none of them 0, the first no blank and the last no newline.
pub record IsPath (c : ℕ) (cs : List ℕ) : Type 0 where
  pub plain : NoZero (c ∷ cs)
  pub no_blank : (c == b' ') ≡ false
  pub one_line : Unbroken (c ∷ cs)

address-NoZero : (cpid c : ℕ) (cs : List ℕ) → NoZero (c ∷ cs) → NoZero (address cpid ++ c ∷ cs)
address-NoZero cpid c cs plain =
    NoZero-append (address cpid) (c ∷ cs)
      (NoZero-append (to_string 20 cpid) (b' ' ∷ []) (to_string-NoZero 20 cpid) (omega arith, tt))
      plain

parse_request_lem :
    (cpid : ℕ) (c : ℕ) (cs : List ℕ)
    → cpid < 2147483648
    → IsPath c cs
    → length (address cpid ++ c ∷ cs) < maxline
    → parse_request
        ((address cpid ++ c ∷ cs) ++ replicate (maxline - length (address cpid ++ c ∷ cs)) 0)
      ≡ (pos cpid, c ∷ cs)
unfolding parse_request limit
parse_request_lem cpid c cs small p room =
    let text = address cpid ++ c ∷ cs in
    let read : strtol (c_string (text ++ replicate (maxline - length text) 0))
        ≡ (pos cpid, b' ' ∷ c ∷ cs) =
      ap strtol (
        c_string-buffer maxline text (address-NoZero cpid c cs p.plain) room
        ∙ append_assoc (to_string 20 cpid) (b' ' ∷ []) (c ∷ cs))
      ∙ strtol-to_string 19 cpid (b' ' ∷ c ∷ cs) (omega arith) (omega arith) refl in
    let low : cpid % 4294967296 ≡ cpid = omega arith in
    let positive : ltb cpid 2147483648 ≡ true = ground arith in
    rw (read, p.no_blank, low, positive) refl

-- A text has arrived in a buffer of `n` bytes.
abbrev arrived : ℕ → List ℕ → List ReadAnswer → Outcome Reading
arrived n text es = returned (record {
  value = pos (length text);
  buffer = text ++ replicate (n - length text) 0;
  rest = es;
})

Read_whole :
    (n k : ℕ) (text : List ℕ) (es : List ReadAnswer)
    → 0 < length text
    → length text < n
    → chomp text ≡ text
    → Read n 1 (interrupted k (got text ∷ es)) ≡ arrived n text es
Read_whole n k [] es some_bytes fits same = absurd (omega arith)
Read_whole n k (b ∷ bs) es some_bytes fits same =
    Read_text n k b bs es fits ∙ ap (λ t. arrived n t es) same

int_eq_positive : (n : ℕ) → 0 < n → int_eq (pos n) (pos 0) ≡ false
int_eq_positive n h = ground arith

asked :
    (cpid c : ℕ) (cs : List ℕ) (k : ℕ) (es : List ReadAnswer) (ws : List WriteAnswer)
    → IsPath c cs
    → length (address cpid ++ c ∷ cs) + 1 < maxline
    → Delivers ws (length (address cpid ++ c ∷ cs))
    → client_request cpid (interrupted k (got (c ∷ (cs ++ newline ∷ [])) ∷ es)) ws
      ≡ returned
          (record { value = pos (length (address cpid ++ c ∷ cs)); sent = address cpid ++ c ∷ cs })
unfolding client_request
asked cpid c cs k es ws p room d =
    let n = maxline - length (address cpid) in
    let long = length-append (address cpid) (c ∷ cs) in
    let line = length-append cs (newline ∷ []) in
    let typed : Read n 1 (interrupted k (got (c ∷ (cs ++ newline ∷ [])) ∷ es))
        ≡ arrived n (c ∷ cs) es =
      Read_text n k c (cs ++ newline ∷ []) es (omega (arith, long, line, room))
      ∙ ap (λ t. arrived n t es) (chomp-line c cs) in
    rw
      (
        typed,
        client_request,
        c_string-buffer n (c ∷ cs) p.plain (omega (arith, long, room)),
        Write-Delivers (address cpid ++ c ∷ cs) ws d,
      )
      refl

understood :
    (cpid c : ℕ) (cs : List ℕ) (l : ℕ) (r : Round)
    → cpid < 2147483648
    → IsPath c cs
    → length (address cpid ++ c ∷ cs) + 1 < maxline
    → r.request ≡ interrupted l (got (address cpid ++ c ∷ cs) ∷ [])
    → one_service_round r ≡ returned (reply r (pos cpid, c ∷ cs))
unfolding one_service_round
understood cpid c cs l r small p room e =
    let text = address cpid ++ c ∷ cs in
    let long = length-append (address cpid) (c ∷ cs) in
    let some_bytes : 0 < length text = omega (arith, long) in
    let fits : length text < maxline = omega (arith, room) in
    let same = chomp-Unbroken text (Unbroken-append (address cpid) c cs p.one_line) in
    let read : Read maxline 1 r.request ≡ arrived maxline text [] =
      ap (Read maxline 1) e ∙ Read_whole maxline l text [] some_bytes fits same in
    rw
      (
        read,
        one_service_round,
        int_eq_positive (length text) some_bytes,
        parse_request_lem cpid c cs small p fits,
      )
      refl

-- The request arrives: test_fifo_multiple_client, which has the process number `cpid`, reads a path and a
-- newline from the terminal, after any number of interruptions, and writes its number, a blank and the
-- path to the service's FIFO; and a service that reads these bytes in one read, after any number of
-- interruptions, goes on with just that number and path. The number is below 2 ^ 31; the path has at least
-- one byte and no 0, starts with no blank, does not end in a newline itself, and fits, with the number, the
-- blank and the newline, into less than 4096 bytes; and the FIFO takes the request.
pub request_arrives :
    (cpid c : ℕ) (cs : List ℕ) (k l : ℕ) (es : List ReadAnswer) (ws : List WriteAnswer) (r : Round)
    → cpid < 2147483648
    → IsPath c cs
    → length (address cpid ++ c ∷ cs) + 1 < maxline
    → Delivers ws (length (address cpid ++ c ∷ cs))
    → r.request ≡ interrupted l (got (address cpid ++ c ∷ cs) ∷ [])
    → (client_request cpid (interrupted k (got (c ∷ (cs ++ newline ∷ [])) ∷ es)) ws
        ≡ returned (record {
          value = pos (length (address cpid ++ c ∷ cs));
          sent = address cpid ++ c ∷ cs;
        }))
      × (one_service_round r ≡ returned (reply r (pos cpid, c ∷ cs)))
request_arrives cpid c cs k l es ws r small p room d e =
    (asked cpid c cs k es ws p room d, understood cpid c cs l r small p room e)
