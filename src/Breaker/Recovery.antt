-- ===== src/Breaker/Recovery.antt =====
-- breaker.go: how a circuit that has been open for `OpenTimeout` closes again, or does not.
use carrier_gateway.Prelude.{
  ℤ, negsuc, half64, ◌-◌, ◌+ℤ◌, ◌≤ℤ◌, ◌<ℤ◌, ℕ, suc, ◌+◌, ◌<◌, pos, ◌≡◌, Option, none, some, List,
  [], ◌∷◌, arith, half32, length, All,
}
use carrier_gateway.Domain.{Error}
use carrier_gateway.Ports.{cb_closed, cb_open, cb_half_open, Env}
use carrier_gateway.Breaker.{Breaker, after_probe, execute, execute_at, execute_half_open}
use carrier_gateway.Breaker.Soundness.{count_up, to_int32-threshold}
use carrier_gateway.Breaker.Streaks.{execute_all, outcomes}

-- A half-open breaker with no probe in flight, `n` successes counted and the threshold `limit`.
pub record Probes (limit n : ℕ) (b : Breaker) : Type 0 where
  pub is_half_open : b.state ≡ cb_half_open
  pub idle : b.half_open_in_flight ≡ 0
  pub succeeded : b.successes ≡ pos n
  pub threshold : b.cfg.success_threshold ≡ pos limit
  pub below : n < limit
  pub fits : limit < half32

-- The open circuit is `OpenTimeout` old, or older; that is a time.Duration, an int64.
pub record IsDue (b : Breaker) (now : ℤ) : Type 0 where
  pub elapsed : b.opened_at +ℤ b.cfg.open_timeout ≤ℤ now
  pub from_below : negsuc (half64 - 1) ≤ℤ b.cfg.open_timeout
  pub from_above : b.cfg.open_timeout <ℤ pos half64

-- The circuit is closed, with both counters at zero.
pub record IsFresh (b : Breaker) : Type 0 where
  pub is_closed : b.state ≡ cb_closed
  pub no_failures : b.failures ≡ pos 0
  pub no_successes : b.successes ≡ pos 0

abbrev pub AllSucceed : List (Option Error) → Type 0
AllSucceed = All (λ r. r ≡ none)

module _ {F W : Type 0} (env : Env F W) where
  step_probe :
      (limit n : ℕ) (b : Breaker) (w : W) (fn : W → W × Option Error)
      → Probes limit n b
      → (fn w).1 ≡ none
      → suc n < limit
      → ((execute env fn b w).1 ≡ (fn w).0) × Probes limit (suc n) (execute env fn b w).0
  unfolding execute execute_at execute_half_open after_probe
  step_probe limit n b w fn p e h =
      ground (arith, count_up b.successes, to_int32-threshold b.cfg.success_threshold)

  step_reopen :
      (limit n : ℕ) (b : Breaker) (w : W) (fn : W → W × Option Error) (x : Error)
      → Probes limit n b
      → (fn w).1 ≡ some x
      → ((execute env fn b w).0.state ≡ cb_open)
        × ((execute env fn b w).0.opened_at ≡ env.now (fn w).0)
        × ((execute env fn b w).0.successes ≡ pos 0)
  unfolding execute execute_at execute_half_open after_probe
  step_reopen limit n b w fn x p e = ground arith

  -- Until then it stays half-open, and one failure opens it again.
  stays_half_open :
      (limit n : ℕ) (b : Breaker) (w : W) (fns : List (W → W × Option Error))
      → Probes limit n b
      → AllSucceed (outcomes w fns)
      → n + length fns < limit
      → Probes limit (n + length fns) (execute_all env b w fns).0
  stays_half_open limit n b w [] p ok h = ground arith
  stays_half_open limit n b w (fn ∷ fns) p ok h =
      let (ew, p') = step_probe limit n b w fn p ok.0 (omega arith) in
      rw (ew, execute_all)
        (ground (arith, stays_half_open limit (suc n) (execute env fn b w).0 (fn w).0 fns p'))

  -- A half-open circuit that has seen fewer successes than the threshold opens again at the first
  -- failure, which restarts the timeout and forgets the successes.
  pub failure_reopens :
      (limit : ℕ) (b : Breaker) (w : W) (fns : List (W → W × Option Error))
      (fn : W → W × Option Error) {x : Error}
      → Probes limit 0 b
      → AllSucceed (outcomes w fns)
      → length fns < limit
      → (fn (execute_all env b w fns).1).1 ≡ some x
      → let (b', w') = execute_all env b w fns in
        let c = (execute env fn b' w').0 in
        (c.state ≡ cb_open) × (c.opened_at ≡ env.now (fn w').0) × (c.successes ≡ pos 0)
  failure_reopens limit b w fns fn p ok h e =
      step_reopen limit _ _ _ fn _ (stays_half_open limit 0 b w fns p ok (omega arith)) e
