-- ===== src/Command/Exit.antt =====
-- How main.go ends: `Shutdown` of the handler, the order of the clean-up, and the exit code.
use carrier_gateway.Prelude.{ℕ, bytes, Bool, Option, none, some, if◌then◌else◌}
use carrier_gateway.Domain.{Error, wrap}

abbrev pub exit_code_success : ℕ
exit_code_success = 0

abbrev pub exit_code_drain_timeout : ℕ
exit_code_drain_timeout = 1

-- What the program waits for: a signal, or the end of ListenAndServe.
pub data Ending : Type 0 where
  signalled served : Ending
  not_served : Error → Ending

-- The goroutine of ListenAndServe and the select on its channel: the argument is what
-- ListenAndServe has returned, if the select takes that, and `is_closed` recognises
-- http.ErrServerClosed.
unfoldable pub ending_of : (Error → Bool) → Option (Option Error) → Ending
ending_of is_closed none = signalled
ending_of is_closed (some none) = served
ending_of is_closed (some (some e)) = if is_closed e then served else not_served e

-- What it then calls: the ticker's Stop and the pool's Close, where there are such, and the server's
-- Shutdown with the drain window of 30 seconds.
pub record Closing (W : Type 0) : Type 0 where
  pub stop_cleanup : Option (W → W)
  pub drain : W → W × Option Error
  pub close_db : Option (W → W)

abbrev pub run_if : {W : Type 0} → Option (W → W) → W → W
run_if none w = w
run_if (some f) w = f w

-- `Handler.Shutdown`
unfoldable pub shutdown : {W : Type 0} → (W → W × Option Error) → W → W × Option Error
shutdown drain w =
    let (w', r) = drain w in
    elim r [ none ↦ (w', none) | some e ↦ (w', some (wrap (bytes "http server shutdown") e)) ]

module _ {W : Type 0} (c : Closing W) where
  abbrev pub close_after : W × Option Error → W × ℕ
  close_after (w, some e) = (w, exit_code_drain_timeout)
  close_after (w, none) = (run_if c.close_db w, exit_code_success)

  -- From the end of the wait to os.Exit.
  unfoldable pub exit_main : Ending → W → W × ℕ
  unfolding shutdown
  exit_main (not_served e) w = (w, exit_code_drain_timeout)
  exit_main signalled w = close_after (shutdown c.drain (run_if c.stop_cleanup w))
  exit_main served w = close_after (shutdown c.drain (run_if c.stop_cleanup w))
