-- ===== src/Breaker/Soundness.antt =====
-- breaker.go: what holds of a breaker between two calls of `Execute` that do not overlap.
use carrier_gateway.Prelude.{
  ◌+◌, ℤ, pos, negsuc, ◌+ℤ◌, ◌≤ℤ◌, ◌<ℤ◌, to_int32, to_int32-pos, half32, ◌≡◌, ◌≢◌, refl, Text, true,
  false, Bool-cases, Option, none, some, arith, inl, inr,
}
use carrier_gateway.Domain.{Error, sentinel, circuit_open}
use carrier_gateway.Ports.{CbState, cb_closed, cb_open, cb_half_open, Env}
use carrier_gateway.Breaker.{
  Config, Breaker, new_breaker, is_waiting, emit_transition, after_closed, after_probe,
  execute_closed, execute_half_open, execute_open, execute_at, execute,
}

-- The thresholds are positive and fit int32, as `int32(cfg.…)` supposes.
pub record InRange (c : Config) : Type 0 where
  pub failures_pos : pos 0 <ℤ c.failure_threshold
  pub failures_fit : c.failure_threshold <ℤ pos half32
  pub successes_pos : pos 0 <ℤ c.success_threshold
  pub successes_fit : c.success_threshold <ℤ pos half32

-- No probe is in flight, no counter has reached its threshold, and the counter of successes is
-- used in the half-open state alone.
pub record IsSound (b : Breaker) : Type 0 where
  pub range : InRange b.cfg
  pub idle : b.half_open_in_flight ≡ 0
  pub failures_nonneg : pos 0 ≤ℤ b.failures
  pub failures_below : b.state ≡ cb_closed → b.failures <ℤ b.cfg.failure_threshold
  pub successes_nonneg : pos 0 ≤ℤ b.successes
  pub successes_below : b.successes <ℤ b.cfg.success_threshold
  pub successes_zero : b.state ≢ cb_half_open → b.successes ≡ pos 0

-- Counting up from a value in range does not wrap.
pub count_up : (a : ℤ) → pos 0 ≤ℤ a → a +ℤ pos 1 <ℤ pos half32 → to_int32 (a +ℤ pos 1) ≡ a +ℤ pos 1
count_up (pos n) h k = ground (arith, to_int32-pos (n + 1))
count_up (negsuc n) h k = absurd (omega arith)

pub to_int32-threshold : (a : ℤ) → pos 0 <ℤ a → a <ℤ pos half32 → to_int32 a ≡ a
to_int32-threshold (pos n) h k = to_int32-pos n (omega arith)
to_int32-threshold (negsuc n) h k = absurd (omega arith)

pub new_breaker-IsSound :
    (carrier_id : Text) (c : Config)
    → c.failure_threshold <ℤ pos half32
    → c.success_threshold <ℤ pos half32
    → IsSound (new_breaker carrier_id c)
unfolding new_breaker
new_breaker-IsSound carrier_id c h k = ground arith

module _ {F W : Type 0} (env : Env F W) where
  pub after_closed-IsSound :
      (b : Breaker) (w : W) (r : Option Error)
      → b.state ≡ cb_closed
      → IsSound b
      → IsSound (after_closed env b w r).0
  unfolding after_closed
  after_closed-IsSound b w none e s = ground arith
  after_closed-IsSound b w (some x) e s =
      ground (arith, count_up b.failures, to_int32-threshold b.cfg.failure_threshold)

  -- A breaker whose probe is in flight is sound but for that.
  after_probe-IsSound :
      (b : Breaker) (w : W) (r : Option Error)
      → b.state ≡ cb_half_open
      → IsSound b
      → IsSound (after_probe env (record b { half_open_in_flight = 1 }) w r).0
  unfolding after_probe
  after_probe-IsSound b w none e s =
      ground (arith, count_up b.successes, to_int32-threshold b.cfg.success_threshold)
  after_probe-IsSound b w (some x) e s = ground arith

  module _ (fn : W → W × Option Error) where
    execute_half_open-IsSound :
        (b : Breaker) (w : W)
        → b.state ≡ cb_half_open
        → IsSound b
        → IsSound (execute_half_open env fn b w).0
    unfolding execute_half_open
    execute_half_open-IsSound b w e s = ground (arith, after_probe-IsSound b (fn w).0 (fn w).1)

    -- The two ways of a call that finds the circuit open.
    pub execute_open-waiting :
        (b : Breaker) (w : W)
        → is_waiting (env.now w) b ≡ true
        → execute_open env fn b w ≡ (b, w, some (sentinel circuit_open))
    unfolding execute_open
    execute_open-waiting b w h = ground arith

    pub execute_open-elapsed :
        (b : Breaker) (w : W)
        → b.state ≡ cb_open
        → is_waiting (env.now w) b ≡ false
        → execute_open env fn b w
          ≡ execute_half_open env fn
              (record b { state = cb_half_open })
              (emit_transition env b.carrier_id cb_open cb_half_open w)
    unfolding execute_open
    execute_open-elapsed b w e h = ground arith

    half_opened-IsSound :
        (b : Breaker) → b.state ≡ cb_open → IsSound b → IsSound (record b { state = cb_half_open })
    half_opened-IsSound b e s = ground arith

    execute_at-IsSound :
        (b : Breaker) (w : W) (st : CbState)
        → b.state ≡ st
        → IsSound b
        → IsSound (execute_at env fn st b w).0
    unfolding execute_at
    execute_at-IsSound b w cb_closed e s =
        unfold execute_closed in after_closed-IsSound b (fn w).0 (fn w).1 e s
    execute_at-IsSound b w cb_half_open e s = execute_half_open-IsSound b w e s
    execute_at-IsSound b w cb_open e s = elim (Bool-cases (is_waiting (env.now w) b)) [
      | inl early ↦ rw (execute_open-waiting b w early) s
      | inr late ↦
          rw (execute_open-elapsed b w e late)
            (execute_half_open-IsSound _ _ refl (half_opened-IsSound b e s))
    ]

    -- Every call of `Execute`, whatever it runs and whatever that returns, keeps the breaker sound.
    pub execute-IsSound : (b : Breaker) (w : W) → IsSound b → IsSound (execute env fn b w).0
    unfolding execute
    execute-IsSound b w s = execute_at-IsSound b w b.state refl s
