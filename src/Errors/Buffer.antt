-- ===== src/Errors/Buffer.antt =====
-- The fixed buffer of `err_doit`: char buf[MAXsize_error + 1], filled by strcat and snprintf.
use unix_ipc_note.Base.{
  ℕ, ◌+◌, ◌-◌, ◌≤◌, ◌<◌, ◌≡◌, ◌≢◌, Bool, true, false, not, List, [], ◌∷◌, arith, length, take,
  length-append, length-take, ℤ, ◌==◌,
}
use unix_ipc_note.Errors.{
  Texts, Globals, max_size_error, newline, format_message, add_newline, room, print_at_end,
  add_piece, fill_buffer, below_minus_one,
}

-- The bytes that the array has room for, the terminator left out.
abbrev pub capacity : ℕ
capacity = max_size_error

length-add_newline : (buf : List ℕ) → length (add_newline buf) ≡ length buf + 1
unfolding add_newline
length-add_newline buf = omega (arith, length-append buf (newline ∷ []))

length-format_message_le : (msg : List ℕ) → length (format_message msg) ≤ length msg
unfolding format_message
length-format_message_le msg = omega (arith, length-take 4095 msg)

-- A message that is too long is cut to one byte less than MAXsize_error.
length-format_message_cut : (msg : List ℕ) → 4095 ≤ length msg → length (format_message msg) ≡ 4095
unfolding format_message
length-format_message_cut msg h = omega (arith, length-take 4095 msg)

length-print_at_end :
    (size : ℕ) (text buf : List ℕ) → length buf ≤ length (print_at_end size text buf)
unfolding print_at_end
length-print_at_end size text buf = omega (arith, length-append buf (take (size - 1) text))

length-print_at_end_le :
    (size : ℕ) (text buf : List ℕ) → length (print_at_end size text buf) ≤ length buf + length text
unfolding print_at_end
length-print_at_end_le size text buf =
    omega (arith, length-append buf (take (size - 1) text), length-take (size - 1) text)

-- A piece adds at most its text and a newline.
length-add_piece_le :
    (test : Bool) (text buf : List ℕ)
    → length (add_piece test text buf) ≤ length buf + length text + 1
unfolding add_piece
length-add_piece_le true text buf = omega (
  arith,
  length-add_newline (print_at_end (room buf) text buf),
  length-print_at_end_le (room buf) text buf,
)
length-add_piece_le false text buf = omega arith

-- It never takes anything away, and a piece that is added always adds its newline.
length-add_piece : (test : Bool) (text buf : List ℕ) → length buf ≤ length (add_piece test text buf)
unfolding add_piece
length-add_piece true text buf = omega (
  arith,
  length-add_newline (print_at_end (room buf) text buf),
  length-print_at_end (room buf) text buf,
)
length-add_piece false text buf = omega arith

length-add_piece-true : (text buf : List ℕ) → length buf + 1 ≤ length (add_piece true text buf)
unfolding add_piece
length-add_piece-true text buf = omega (
  arith,
  length-add_newline (print_at_end (room buf) text buf),
  length-print_at_end (room buf) text buf,
)

-- The chain of `err_doit`: a message and three optional pieces.
module _ (b c d : Bool) (x y z msg : List ℕ) where
  abbrev message : List ℕ
  message = add_newline (format_message msg)

  chain_le :
      length (add_piece d z (add_piece c y (add_piece b x message)))
      ≤ length msg + length x + length y + length z + 4
  chain_le = omega (
    arith,
    length-add_piece_le d z (add_piece c y (add_piece b x message)),
    length-add_piece_le c y (add_piece b x message),
    length-add_piece_le b x message,
    length-add_newline (format_message msg),
    length-format_message_le msg,
  )

  chain_overflow :
      b ≡ true
      → 4095 ≤ length msg
      → 4096 < length (add_piece d z (add_piece c y (add_piece b x message)))
  chain_overflow e long = omega (
    arith,
    length-add_piece d z (add_piece c y (add_piece b x message)),
    length-add_piece c y (add_piece b x message),
    piece,
    length-add_newline (format_message msg),
    length-format_message_cut msg long,
  )
    where
      piece : length message + 1 ≤ length (add_piece b x message)
      piece = rw e (length-add_piece-true x message)

module _ (t : Texts) (g : Globals) (v : ℤ) (msg : List ℕ) where
  -- What the message and the three possible pieces come to, each with its newline.
  abbrev pub needed : ℕ
  needed =
      length msg
      + length (t.errno_text g.errno)
      + length (t.h_errno_text g.h_errno)
      + length (t.gai_text v)
      + 4

  -- Where the message and the three texts, each with a newline, come to at most MAXsize_error bytes,
  -- `err_doit` writes inside its buffer: at most MAXsize_error bytes and the terminator.
  pub fill_buffer_in_bounds : needed ≤ capacity → length (fill_buffer t g v msg) ≤ capacity
  unfolding fill_buffer
  fill_buffer_in_bounds fits = omega (
    arith,
    chain_le (not (g.errno == 0)) (not (g.h_errno == 0)) (below_minus_one v) (t.errno_text g.errno)
        (t.h_errno_text g.h_errno) (t.gai_text v) msg,
  )

  -- Where the formatted message is MAXsize_error - 1 bytes or longer and errno is set, `err_doit`
  -- writes more than MAXsize_error bytes, so that the terminator lies outside the array.
  pub fill_buffer_overflow :
      4095 ≤ length msg → g.errno ≢ 0 → capacity < length (fill_buffer t g v msg)
  unfolding fill_buffer
  fill_buffer_overflow long e =
      chain_overflow (not (g.errno == 0)) (not (g.h_errno == 0)) (below_minus_one v)
        (t.errno_text g.errno) (t.h_errno_text g.h_errno) (t.gai_text v) msg (ground arith) long
