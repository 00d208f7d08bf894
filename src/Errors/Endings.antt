-- ===== src/Errors/Endings.antt =====
-- Which reporters end the process, and when.
use unix_ipc_note.Base.{ℕ, suc, ◌≡◌, refl, false, Option, none, some, List, arith, ℤ, pos, negsuc}
use unix_ipc_note.Errors.{
  Texts, Globals, Site, Form, Report, returns, exits, aborts, Ending, err_ret, err_msg, err_sys,
  err_quit, err_dump, err_addrinfo,
}

-- The report is there, with the value that the caller passed.
abbrev pub Reports : Option Report → ℤ → Type 0
Reports none v = ⊥
Reports (some r) v = r.value ≡ v

module _ (t : Texts) (g : Globals) (f : Form) (s : Site) (msg : List ℕ) where
  -- A value that is not negative passes through `err_ret`, `err_msg`, `err_sys`, `err_quit` and
  -- `err_dump`: no report, no notice, and the caller goes on.
  pub nonneg_silent :
      (n : ℕ)
      → let silent : Ending = record { report = none; notice = false; fate = returns } in
        (err_ret t g f s (pos n) msg ≡ silent)
        × (err_msg t g f s (pos n) msg ≡ silent)
        × (err_sys t g f s (pos n) msg ≡ silent)
        × (err_quit t g f s (pos n) msg ≡ silent)
        × (err_dump t g f s (pos n) msg ≡ silent)
  unfolding err_ret err_msg err_sys err_quit err_dump
  nonneg_silent n = (refl, refl, refl, refl, refl)

  -- A negative value is reported by all five with that value; `err_ret` and `err_msg` return to the
  -- caller, `err_sys` and `err_quit` exit with the value itself, `err_dump` aborts.
  pub negative_fate :
      (n : ℕ)
      → let v = negsuc n in
        Reports (err_ret t g f s v msg).report v
        × ((err_ret t g f s v msg).fate ≡ returns)
        × Reports (err_msg t g f s v msg).report v
        × ((err_msg t g f s v msg).fate ≡ returns)
        × Reports (err_sys t g f s v msg).report v
        × ((err_sys t g f s v msg).fate ≡ exits v)
        × Reports (err_quit t g f s v msg).report v
        × ((err_quit t g f s v msg).fate ≡ exits v)
        × Reports (err_dump t g f s v msg).report v
        × ((err_dump t g f s v msg).fate ≡ aborts)
  unfolding err_ret err_msg err_sys err_quit err_dump
  negative_fate n = (refl, refl, refl, refl, refl, refl, refl, refl, refl, refl)

  -- `err_addrinfo` returns, with no report, for 0 alone; for any other value of either sign it exits
  -- with that value, and the report shows it made negative.
  pub err_addrinfo_fate :
      (n : ℕ)
      → ((err_addrinfo t g f s (pos 0) msg).fate ≡ returns)
        × ((err_addrinfo t g f s (pos 0) msg).report ≡ none)
        × ((err_addrinfo t g f s (pos (suc n)) msg).fate ≡ exits (pos (suc n)))
        × Reports (err_addrinfo t g f s (pos (suc n)) msg).report (negsuc n)
        × ((err_addrinfo t g f s (negsuc n) msg).fate ≡ exits (negsuc n))
        × Reports (err_addrinfo t g f s (negsuc n) msg).report (negsuc n)
  unfolding err_addrinfo
  err_addrinfo_fate n = (refl, refl, ground arith, ground arith, refl, refl)
