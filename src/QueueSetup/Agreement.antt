-- ===== src/QueueSetup/Agreement.antt =====
-- The two ways to open a queue agree.
use unix_ipc_note.Base.{
  ℕ, ◌≡◌, refl, ap, ◌∙◌, sym, true, false, not, List, [], ◌∷◌, ℤ, pos, negsuc, arith, is_neg, ◌||◌,
  ◌&&◌,
}
use unix_ipc_note.System.{returned}
use unix_ipc_note.Words.{list_eq}
use unix_ipc_note.QueueSetup.{
  Attr, Options, no_options, opt_e, opt_m, opt_z, number_of, set_maxmsg, set_msgsize, option_loop,
  positive, is_zero, last_word, open_words, Opt, exclusive, maxmsg, msgsize, getopt_loop,
  open_operands, test_mq_create,
}

-- The words that stand for the options.
pub words_of : List Opt → List (List ℕ) → List (List ℕ)
words_of [] rest = rest
words_of (exclusive ∷ opts) rest = opt_e ∷ words_of opts rest
words_of (maxmsg v ∷ opts) rest = opt_m ∷ v ∷ words_of opts rest
words_of (msgsize v ∷ opts) rest = opt_z ∷ v ∷ words_of opts rest
words_of (Opt.unknown ∷ opts) rest = words_of opts rest

abbrev pub NonNegative : ℤ → Type 0
NonNegative n = is_neg n ≡ false

-- Known options, with no value below 0.
abbrev pub AllGood : List Opt → Type 0
AllGood [] = Unit
AllGood (exclusive ∷ opts) = AllGood opts
AllGood (maxmsg v ∷ opts) = NonNegative (number_of v) × AllGood opts
AllGood (msgsize v ∷ opts) = NonNegative (number_of v) × AllGood opts
AllGood (Opt.unknown ∷ opts) = ⊥

words_of-cons :
    (opts : List Opt) (name : List ℕ)
    → (w : List ℕ) × (ws : List (List ℕ)) × (words_of opts (name ∷ []) ≡ w ∷ ws)
unfolding words_of
words_of-cons [] name = (name, [], refl)
words_of-cons (exclusive ∷ opts) name = (opt_e, words_of opts (name ∷ []), refl)
words_of-cons (maxmsg v ∷ opts) name = (opt_m, v ∷ words_of opts (name ∷ []), refl)
words_of-cons (msgsize v ∷ opts) name = (opt_z, v ∷ words_of opts (name ∷ []), refl)
words_of-cons (Opt.unknown ∷ opts) name = words_of-cons opts name

-- The options that both loops come to.
abbrev collected : List Opt → Options → Options
collected [] o = o
collected (exclusive ∷ opts) o = collected opts (record o { excl = true })
collected (maxmsg v ∷ opts) o = collected opts (set_maxmsg v o)
collected (msgsize v ∷ opts) o = collected opts (set_msgsize v o)
collected (Opt.unknown ∷ opts) o = collected opts o

getopt_loop-collected :
    (opts : List Opt) (o : Options)
    → AllGood opts
    → getopt_loop opts o ≡ returned (collected opts o)
unfolding getopt_loop
getopt_loop-collected [] o h = refl
getopt_loop-collected (exclusive ∷ opts) o h =
    getopt_loop-collected opts (record o { excl = true }) h
getopt_loop-collected (maxmsg v ∷ opts) o h = getopt_loop-collected opts (set_maxmsg v o) h.1
getopt_loop-collected (msgsize v ∷ opts) o h = getopt_loop-collected opts (set_msgsize v o) h.1
getopt_loop-collected (Opt.unknown ∷ opts) o h = absurd h

option_loop-exclusive :
    (words : List (List ℕ)) (v : List ℕ) (ws : List (List ℕ)) (o : Options)
    → words ≡ v ∷ ws
    → option_loop (opt_e ∷ words) o ≡ option_loop words (record o { excl = true })
unfolding option_loop list_eq
option_loop-exclusive words v ws o e = rw e refl

option_loop-collected :
    (opts : List Opt) (name : List ℕ) (o : Options)
    → AllGood opts
    → option_loop (words_of opts (name ∷ [])) o ≡ collected opts o
unfolding option_loop words_of list_eq
option_loop-collected [] name o h = refl
option_loop-collected (exclusive ∷ opts) name o h =
    let (v, ws, e) = words_of-cons opts name in
    option_loop-exclusive (words_of opts (name ∷ [])) v ws o e
    ∙ option_loop-collected opts name (record o { excl = true }) h
option_loop-collected (maxmsg v ∷ opts) name o h =
    option_loop-collected opts name (set_maxmsg v o) h.1
option_loop-collected (msgsize v ∷ opts) name o h =
    option_loop-collected opts name (set_msgsize v o) h.1
option_loop-collected (Opt.unknown ∷ opts) name o h = absurd h

last_word-words_of :
    (opts : List Opt) (name w : List ℕ) → last_word w (words_of opts (name ∷ [])) ≡ name
unfolding last_word words_of
last_word-words_of [] name w = refl
last_word-words_of (exclusive ∷ opts) name w = last_word-words_of opts name opt_e
last_word-words_of (maxmsg v ∷ opts) name w = last_word-words_of opts name v
last_word-words_of (msgsize v ∷ opts) name w = last_word-words_of opts name v
last_word-words_of (Opt.unknown ∷ opts) name w = last_word-words_of opts name w

last_word-tail : (w : List ℕ) (ws : List (List ℕ)) → last_word w ws ≡ last_word [] (w ∷ ws)
unfolding last_word
last_word-tail w ws = refl

abbrev NonNegativeAttr : Attr → Type 0
NonNegativeAttr a = NonNegative a.mq_maxmsg × NonNegative a.mq_msgsize

collected-NonNegative :
    (opts : List Opt) (o : Options)
    → AllGood opts
    → NonNegativeAttr o.attr
    → NonNegativeAttr (collected opts o).attr
collected-NonNegative [] o h n = n
collected-NonNegative (exclusive ∷ opts) o h n =
    collected-NonNegative opts (record o { excl = true }) h n
collected-NonNegative (maxmsg v ∷ opts) o h n =
    collected-NonNegative opts (set_maxmsg v o) h.1 (h.0, n.1)
collected-NonNegative (msgsize v ∷ opts) o h n =
    collected-NonNegative opts (set_msgsize v o) h.1 (n.0, h.0)
collected-NonNegative (Opt.unknown ∷ opts) o h n = absurd h

tests_agree :
    (m z : ℤ)
    → NonNegative m
    → NonNegative z
    → (((positive m && is_zero z) || ((is_zero m && positive z) || (is_neg m || is_neg z)))
        ≡ ((not (is_zero m) && is_zero z) || (is_zero m && not (is_zero z))))
      × (positive m ≡ not (is_zero m))
tests_agree (pos m) (pos z) h k = (ground arith, ground arith)
tests_agree (pos m) (negsuc z) h k = absurd (cc k)
tests_agree (negsuc m) z h k = absurd (cc h)

open_words_lem :
    (opts : List Opt) (name w : List ℕ) (ws : List (List ℕ))
    → AllGood opts
    → words_of opts (name ∷ []) ≡ w ∷ ws
    → open_words (w ∷ ws) ≡ open_operands (name ∷ []) (collected opts no_options)
unfolding open_words
open_words_lem opts name w ws h e =
    let o = collected opts no_options in
    let n = collected-NonNegative opts no_options h (refl, refl) in
    let options : option_loop (w ∷ ws) no_options ≡ o =
      ap (λ words. option_loop words no_options) (sym e)
      ∙ option_loop-collected opts name no_options h in
    let last : last_word w ws ≡ name =
      last_word-tail w ws ∙ ap (last_word []) (sym e) ∙ last_word-words_of opts name [] in
    let (half, given) = tests_agree o.attr.mq_maxmsg o.attr.mq_msgsize n.0 n.1 in
    rw (options, last, half, given) refl

test_mq_create_lem :
    (opts : List Opt) (name : List ℕ)
    → AllGood opts
    → test_mq_create opts (name ∷ []) ≡ open_operands (name ∷ []) (collected opts no_options)
unfolding test_mq_create
test_mq_create_lem opts name h = rw (getopt_loop-collected opts no_options h, test_mq_create) refl

-- For options with no value below 0, in any number and order, mq_create, given the words of a command
-- line, and test_mq_create, given what getopt makes of them, call mq_open alike or refuse alike.
pub creates_agree :
    (opts : List Opt) (name : List ℕ)
    → AllGood opts
    → open_words (words_of opts (name ∷ [])) ≡ test_mq_create opts (name ∷ [])
creates_agree opts name h =
    let (w, ws, e) = words_of-cons opts name in
    ap open_words e ∙ open_words_lem opts name w ws h e ∙ sym (test_mq_create_lem opts name h)
