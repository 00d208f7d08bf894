-- ===== src/ThreadPool/Invariant.antt =====
-- The workers keep to the mutex, and every task is run once and in order.
use unix_ipc_note.Base.{
  ℕ, ◌≡◌, ◌≢◌, refl, sym, ap, ◌∙◌, ◌⊎◌, inl, inr, Bool, true, false, [], ◌∷◌, ◌++◌, update, arith,
  append_assoc, ℕ_discrete,
}
use unix_ipc_note.ThreadPool.{
  client, worker, Shared, Pc, locking, sleeping, woken, checking, taking, leaving, finished,
  crashed, is_empty, Move, lock, wait, go, relock, leave, stay, take, crash, Client, idle, pushing,
  add_unlocking, joining, ClientMove, call_add, add_lock, push, add_unlock, stop_again, stop,
  set_exit, System, wake, Step, work, call, signal, signal_none, broadcast, joined, Spurious, rouse,
  start, Reach, here, next, rouse_next,
}

-- Between pthread_mutex_lock and the release of the mutex.
abbrev pub holds : Pc → Bool
holds locking = false
holds sleeping = false
holds woken = false
holds finished = false
holds _ = true

abbrev pub client_holds : Client → Bool
client_holds (pushing _) = true
client_holds add_unlocking = true
client_holds _ = false

-- What a worker knows of the shared members at its place.
abbrev pub Knows : Shared → Pc → Type 0
Knows m checking = (m.tasks ≢ []) ⊎ (m.exit ≡ true)
Knows m taking = m.tasks ≢ []
Knows m leaving = m.exit ≡ true
Knows m finished = m.exit ≡ true
Knows m crashed = ⊥
Knows m _ = Unit

pub record Inv (s : System) : Type 0 where
  pub mine : (i : ℕ) → holds (s.pc i) ≡ true → s.mem.owner ≡ worker i
  pub caller_own : client_holds s.caller ≡ true → s.mem.owner ≡ client
  pub known : (i : ℕ) → Knows s.mem (s.pc i)
  pub in_order : s.mem.ran ++ s.mem.tasks ≡ s.mem.added

start-Inv : Inv start
start-Inv = record { mine = λ i h. cc; caller_own = λ h. cc; known = λ i. tt; in_order = refl }

module _ {m : Shared} {caller : Client} {pc : ℕ → Pc}
    (inv : Inv (record { mem = m; caller = caller; pc = pc })) (i : ℕ) where
  open inv use {mine, caller_own, known, in_order}

  work-mine :
      {p p' : Pc} {m' : Shared}
      → Move i m p m' p'
      → pc i ≡ p
      → (j : ℕ) → holds (update pc i p' j) ≡ true
      → m'.owner ≡ worker j
  work-mine (lock f) e j h = ground (arith, mine j)
  work-mine (relock f) e j h = ground (arith, mine j)
  work-mine mv e j h = ground (arith, mine j, mine i)

  work-caller_own :
      {p p' : Pc} {m' : Shared}
      → Move i m p m' p'
      → pc i ≡ p
      → client_holds caller ≡ true
      → m'.owner ≡ client
  work-caller_own (lock f) e h = ground arith
  work-caller_own (relock f) e h = ground arith
  work-caller_own mv e h = ground (arith, mine i)

  work-known :
      {p p' : Pc} {m' : Shared}
      → Move i m p m' p'
      → pc i ≡ p
      → (j : ℕ) → Knows m' (update pc i p' j)
  unfolding is_empty
  work-known (lock f) e j = ground (arith, known j)
  work-known (wait f) e j = ground (arith, known j)
  work-known (go f) e j = ground (arith, known j)
  work-known (leave f) e j = ground (arith, known j)
  work-known (stay f) e j = ground (arith, known j, known i)
  work-known (take f) e j = ground (arith, known j, mine i, mine j)
  work-known (crash f) e j = ground (arith, known i)
  work-known mv e j = ground (arith, known j, known i)

  work-in_order : {p p' : Pc} {m' : Shared} → Move i m p m' p' → m'.ran ++ m'.tasks ≡ m'.added
  work-in_order (lock f) = in_order
  work-in_order (take {t = t} {ts = ts} e) =
      append_assoc m.ran (t ∷ []) ts ∙ ap (λ l. m.ran ++ l) (sym e) ∙ in_order
  work-in_order mv = in_order

module _ {m : Shared} {caller : Client} {pc : ℕ → Pc}
    (inv : Inv (record { mem = m; caller = caller; pc = pc })) where
  open inv use {mine, caller_own, known, in_order}

  call-Inv :
      {c c' : Client} {m' : Shared}
      → ClientMove m c m' c'
      → caller ≡ c
      → Inv (record { mem = m'; caller = c'; pc = pc })
  call-Inv (call_add t) e = record {
    mine = mine;
    caller_own = λ h. cc;
    known = known;
    in_order = in_order;
  }
  call-Inv (add_lock f) e = record {
    mine = λ j h. ground (arith, mine j);
    caller_own = λ h. refl;
    known = λ j. ground (arith, known j);
    in_order = in_order;
  }
  call-Inv (push {t = t}) e = record {
    mine = mine;
    caller_own = λ h. ground arith;
    known = λ j. ground (arith, known j, mine j);
    in_order = sym (append_assoc m.ran m.tasks (t ∷ [])) ∙ ap (λ l. l ++ t ∷ []) in_order;
  }
  call-Inv add_unlock e = record {
    mine = λ j h. ground (arith, mine j);
    caller_own = λ h. cc;
    known = λ j. ground (arith, known j);
    in_order = in_order;
  }
  call-Inv (stop_again f) e = record {
    mine = mine;
    caller_own = λ h. cc;
    known = known;
    in_order = in_order;
  }
  call-Inv (stop f) e = record {
    mine = mine;
    caller_own = λ h. cc;
    known = known;
    in_order = in_order;
  }
  call-Inv set_exit e = record {
    mine = mine;
    caller_own = λ h. cc;
    known = λ j. ground (arith, known j);
    in_order = in_order;
  }

  -- A wake-up of some sleepers.
  roused-Inv :
      (c : Client) (pc' : ℕ → Pc)
      → (client_holds c ≡ true → m.owner ≡ client)
      → ((j : ℕ) → (pc' j ≡ pc j) ⊎ ((pc j ≡ sleeping) × (pc' j ≡ woken)))
      → Inv (record { mem = m; caller = c; pc = pc' })
  roused-Inv c pc' own same = record {
    mine = λ j h. ground (arith, mine j, same j);
    caller_own = own;
    known = λ j. ground (arith, known j, same j);
    in_order = in_order;
  }

wake-cases : (p : Pc) → (wake p ≡ p) ⊎ ((p ≡ sleeping) × (wake p ≡ woken))
wake-cases sleeping = inr (refl, refl)
wake-cases p = inl refl

update-cases :
    (pc : ℕ → Pc) (i : ℕ)
    → pc i ≡ sleeping
    → (j : ℕ) → (update pc i woken j ≡ pc j) ⊎ ((pc j ≡ sleeping) × (update pc i woken j ≡ woken))
update-cases pc i e j = elim (ℕ_discrete i j) [
  | yes q ↦ inr (ground arith, ground arith)
  | no q ↦ inl (ground arith)
]

-- Every step keeps the invariant.
pub Step-Inv : {n : ℕ} {s t : System} → Step n s t → Inv s → Inv t
Step-Inv {s} (work i lt mv) inv = record {
  mine = work-mine inv i mv refl;
  caller_own = work-caller_own inv i mv refl;
  known = work-known inv i mv refl;
  in_order = work-in_order inv i mv;
}
Step-Inv {s} (call mv) inv = call-Inv inv mv refl
Step-Inv {s} (signal i c e) inv =
    roused-Inv inv idle (update s.pc i woken) (λ h. cc) (update-cases s.pc i e)
Step-Inv {s} (signal_none c none) inv = roused-Inv inv idle s.pc (λ h. cc) (λ j. inl refl)
Step-Inv {s} (broadcast c) inv =
    roused-Inv inv joining (λ i. wake (s.pc i)) (λ h. cc) (λ j. wake-cases (s.pc j))
Step-Inv {s} (joined c done) inv = roused-Inv inv idle s.pc (λ h. cc) (λ j. inl refl)

Spurious-Inv : {s t : System} → Spurious s t → Inv s → Inv t
Spurious-Inv {s} (rouse i e) inv =
    roused-Inv inv s.caller (update s.pc i woken) inv.caller_own (update-cases s.pc i e)

pub Reach-Inv : {n : ℕ} {s : System} → Reach n s → Inv s
Reach-Inv here = start-Inv
Reach-Inv (next r st) = Step-Inv st (Reach-Inv r)
Reach-Inv (rouse_next r st) = Spurious-Inv st (Reach-Inv r)

-- In every reachable state, with any number of workers and spurious wake-ups included, no two
-- workers are between the lock and the release of the mutex, nor a worker and the client.
pub mutual_exclusion :
    {n : ℕ} {s : System}
    → Reach n s
    → (i : ℕ) → holds (s.pc i) ≡ true
    → ((j : ℕ) → holds (s.pc j) ≡ true → i ≡ j) × (client_holds s.caller ≡ false)
mutual_exclusion {s} r i h = (λ j h'. same j h', apart)
  where
    open (Reach-Inv r) use {mine, caller_own}

    same : (j : ℕ) → holds (s.pc j) ≡ true → i ≡ j
    same j h' = ground (arith, mine i h, mine j h')

    apart : client_holds s.caller ≡ false
    apart = ground (arith, mine i h, caller_own)

-- In every reachable state the tasks that have been run, followed by those that wait in the list,
-- are the tasks that were added, in the order in which they were added; and no worker has taken the
-- first of an empty list.
pub tasks_in_order :
    {n : ℕ} {s : System}
    → Reach n s
    → (s.mem.ran ++ s.mem.tasks ≡ s.mem.added) × ((i : ℕ) → s.pc i ≢ crashed)
tasks_in_order {s} r = (in_order, λ i e. ground (arith, known i))
  where
    open (Reach-Inv r) use {in_order, known}

-- A worker leaves its loop only after `stopAllThread_Control` has set the flag.
pub finished-exit :
    {n : ℕ} {s : System} → Reach n s → (i : ℕ) → s.pc i ≡ finished → s.mem.exit ≡ true
finished-exit {s} r i e = ground (arith, known i)
  where
    open (Reach-Inv r) use {known}
