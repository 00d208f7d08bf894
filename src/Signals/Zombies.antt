-- ===== src/Signals/Zombies.antt =====
-- Which children the handler of SIGCHLD leaves behind.
use unix_ipc_note.Base.{
  ℕ, ◌+◌, ◌≤◌, ◌≡◌, refl, Bool, true, false, List, [], ◌∷◌, ◌++◌, length, length-append, arith,
}
use unix_ipc_note.Signals.{Child, wifexited, sig_chld, Parent, ParentStep}

-- None of the children ended normally.
abbrev pub NoneNormal : List Child → Type 0
NoneNormal [] = Unit
NoneNormal (c ∷ cs) = (wifexited c.status ≡ false) × NoneNormal cs

abbrev pub AllNormal : List Child → Type 0
AllNormal [] = Unit
AllNormal (c ∷ cs) = (wifexited c.status ≡ true) × AllNormal cs

-- Behind children that a signal ended comes one that ended normally: `sig_chld` waits for these and
-- for it, and for no other. Where no child ended normally it waits for all.
pub sig_chld_stops :
    (before after : List Child) (c : Child)
    → NoneNormal before
    → wifexited c.status ≡ true
    → (sig_chld (before ++ c ∷ after) ≡ record { reaped = before ++ c ∷ []; left = after })
      × (sig_chld before ≡ record { reaped = before; left = [] })
unfolding sig_chld
sig_chld_stops [] after c none_normal h = (rw h refl, refl)
sig_chld_stops (b ∷ before) after c none_normal h =
    let rest = sig_chld_stops before after c none_normal.1 h in ground (arith, none_normal, rest)

-- The child that ends in this step, if one does, ends normally.
abbrev pub EndsNormally : {s t : Parent} → ParentStep s t → Type 0
EndsNormally (ParentStep.ends c) = wifexited c.status ≡ true
EndsNormally (ParentStep.deliver p) = Unit

-- Any number of steps, in which every child ends normally.
pub data Run (s : Parent) : Parent → Type 0 where
  here : Run s s
  next : {t u : Parent} → Run s t → (st : ParentStep t u) → EndsNormally st → Run s u

AllNormal-push :
    (cs : List Child) (c : Child)
    → AllNormal cs
    → wifexited c.status ≡ true
    → AllNormal (cs ++ c ∷ [])
AllNormal-push [] c all h = (h, tt)
AllNormal-push (d ∷ cs) c all h = (all.0, AllNormal-push cs c all.1 h)

-- Of children that all ended normally the handler waits for the first.
sig_chld-tail : (cs : List Child) → AllNormal cs → AllNormal (sig_chld cs).left
unfolding sig_chld
sig_chld-tail [] all = tt
sig_chld-tail (c ∷ cs) all = rw (all.0) (all.1)

length-left : (cs : List Child) → AllNormal cs → length cs ≤ length (sig_chld cs).left + 1
unfolding sig_chld
length-left [] all = omega arith
length-left (c ∷ cs) all = rw (all.0) (omega arith)

abbrev one_if : Bool → ℕ
one_if true = 1
one_if false = 0

keeps :
    {s t : Parent}
    → Run s t
    → AllNormal s.zombies
    → s.pending ≡ false
    → AllNormal t.zombies × (length s.zombies + one_if t.pending ≤ length t.zombies)
keeps {s} here all quiet = (all, rw quiet (omega arith))
keeps (next {t} r (ParentStep.ends c) h) all quiet =
    let ih = keeps r all quiet in
    (AllNormal-push t.zombies c ih.0 h, omega (arith, ih.1, length-append t.zombies (c ∷ [])))
keeps (next {t} r (ParentStep.deliver p) h) all quiet =
    let ih = keeps r all quiet in
    let counted : length t.zombies ≤ length (sig_chld t.zombies).left + 1 =
      length-left t.zombies ih.0 in
    (sig_chld-tail t.zombies ih.0, ground (arith, p, ih.1, counted))

-- Children that have ended normally and been left behind, with no signal pending, stay: as long as
-- every further child ends normally too, there are never fewer of them, whatever is delivered.
pub zombies_stay :
    {s t : Parent}
    → Run s t
    → AllNormal s.zombies
    → s.pending ≡ false
    → length s.zombies ≤ length t.zombies
zombies_stay r all quiet = omega (arith, (keeps r all quiet).1)
