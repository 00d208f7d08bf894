-- ===== src/Notify/Messages.antt =====
-- What an arrival and a receipt do to the queue and its registration.
use unix_ipc_note.Base.{
  ℕ, ◌+◌, ◌≤◌, ◌≡◌, refl, ◌∙◌, sym, ap, ◌⊎◌, inl, inr, Bool, true, false, ◌&&◌, ◌||◌, List, [], ◌∷◌,
  ◌++◌, arith, append_assoc, append-nil,
}
use mathlib.Core.Path.{subst}
use unix_ipc_note.Notify.{
  Queue, is_empty, arrive, take_first, receive, loops, loops_lem, loops_empty, AllText,
}

abbrev pub count : Bool → ℕ
count true = 1
count false = 0

AllText-before : (ms ns : List (List ℕ)) → AllText (ms ++ ns) → AllText ms
AllText-before [] ns h = tt
AllText-before ([] ∷ ms) ns h = h
AllText-before ((c ∷ cs) ∷ ms) ns h = AllText-before ms ns h

AllText-behind : (ms ns : List (List ℕ)) → AllText (ms ++ ns) → AllText ns
AllText-behind [] ns h = h
AllText-behind ([] ∷ ms) ns h = absurd h
AllText-behind ((c ∷ cs) ∷ ms) ns h = AllText-behind ms ns h

-- An arrival moves the registration to the pending signal, or leaves both as they are.
pub arrive_token :
    (m : List ℕ) (q : Queue)
    → count q.registered + count q.pending ≤ 1
    → count (arrive m q).registered + count (arrive m q).pending
      ≡ count q.registered + count q.pending
unfolding arrive
arrive_token m q h = by_cases q.messages q.registered q.pending h
  where
    by_cases :
        (ms : List (List ℕ)) (r p : Bool)
        → count r + count p ≤ 1
        → count (elim (is_empty ms) [ true ↦ false | false ↦ r ]) + count (p || (is_empty ms && r))
          ≡ count r + count p
    by_cases [] true true h = absurd (omega arith)
    by_cases [] true false h = refl
    by_cases [] false true h = refl
    by_cases [] false false h = refl
    by_cases (m ∷ ms) true true h = refl
    by_cases (m ∷ ms) true false h = refl
    by_cases (m ∷ ms) false true h = refl
    by_cases (m ∷ ms) false false h = refl

-- Where a registered receiver has an empty queue, an arrival ends the registration.
pub arrive_unregistered :
    (m : List ℕ) (q : Queue)
    → (q.registered ≡ true → q.messages ≡ [])
    → (arrive m q).registered ≡ false
unfolding arrive
arrive_unregistered m q h = by_cases q.messages q.registered h
  where
    by_cases :
        (ms : List (List ℕ)) (r : Bool)
        → (r ≡ true → ms ≡ [])
        → elim (is_empty ms) [ true ↦ false | false ↦ r ] ≡ false
    by_cases [] r h = refl
    by_cases (m ∷ ms) false h = refl
    by_cases (m ∷ ms) true h = absurd (cc (h refl))

-- Every message that has been sent is taken or still there, in order.
abbrev pub InOrder : Queue → Type 0
InOrder q = q.sent ≡ q.taken ++ q.messages

pub arrive-InOrder : (m : List ℕ) (q : Queue) → InOrder q → InOrder (arrive m q)
unfolding arrive
arrive-InOrder m q e = rw e (append_assoc q.taken q.messages (m ∷ []))

take_first-InOrder :
    (ms : List (List ℕ)) (q : Queue) → q.messages ≡ ms → InOrder q → InOrder (take_first ms q)
take_first-InOrder [] q e h = h
take_first-InOrder (m ∷ ms) q e h = h ∙ rw (e, append_assoc q.taken (m ∷ []) ms) refl

pub receive-InOrder : (q : Queue) → InOrder q → InOrder (receive q)
receive-InOrder q h = take_first-InOrder q.messages q refl h

-- Where no message is empty, the loop goes on until there is none.
pub loops_until_empty :
    (size : ℕ) (q : Queue)
    → AllText q.messages
    → (loops size q ≡ true) ⊎ ((loops size q ≡ false) × (q.messages ≡ []))
loops_until_empty size q h = by_cases q.messages refl h
  where
    by_cases :
        (ms : List (List ℕ))
        → q.messages ≡ ms
        → AllText ms
        → (loops size q ≡ true) ⊎ ((loops size q ≡ false) × (q.messages ≡ []))
    by_cases [] e h = inr (loops_empty size q e, e)
    by_cases ([] ∷ ms) e h = absurd h
    by_cases ((c ∷ cs) ∷ ms) e h = inl (loops_lem size q c cs ms e)

take_first-flags :
    (ms : List (List ℕ)) (q : Queue)
    → ((take_first ms q).registered ≡ q.registered) × ((take_first ms q).pending ≡ q.pending)
take_first-flags [] q = (refl, refl)
take_first-flags (m ∷ ms) q = (refl, refl)

take_first-sent : (ms : List (List ℕ)) (q : Queue) → (take_first ms q).sent ≡ q.sent
take_first-sent [] q = refl
take_first-sent (m ∷ ms) q = refl

-- A receipt leaves the registration and the pending signal.
pub receive-flags :
    (q : Queue) → ((receive q).registered ≡ q.registered) × ((receive q).pending ≡ q.pending)
receive-flags q = take_first-flags q.messages q

receive-sent : (q : Queue) → (receive q).sent ≡ q.sent
receive-sent q = take_first-sent q.messages q

pub receive_empty : (q : Queue) → q.messages ≡ [] → (receive q).messages ≡ []
receive_empty q e = ap (λ ms. (take_first ms q).messages) e ∙ e

pub all_taken : (q : Queue) → InOrder q → q.messages ≡ [] → q.taken ≡ q.sent
all_taken q h e = sym (h ∙ rw e (append-nil q.taken))

pub arrive-sent : (m : List ℕ) (q : Queue) → (arrive m q).sent ≡ q.sent ++ m ∷ []
unfolding arrive
arrive-sent m q = refl

-- A message is sent once and for all.
pub arrive-AllText : (m : List ℕ) (q : Queue) → AllText (arrive m q).sent → AllText q.sent
arrive-AllText m q text = AllText-before q.sent (m ∷ []) (subst AllText (arrive-sent m q) text)

pub receive-AllText : (q : Queue) → AllText (receive q).sent → AllText q.sent
receive-AllText q text = subst AllText (receive-sent q) text

pub messages-AllText : (q : Queue) → InOrder q → AllText q.sent → AllText q.messages
messages-AllText q h text = AllText-behind q.taken q.messages (subst AllText h text)
