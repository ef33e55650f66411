-- ===== src/Breaker.antt =====
-- internal/circuitbreaker/breaker.go: the breaker, its atomic operations, and `Execute` as one
-- goroutine runs it. What other goroutines do between two atomic operations is in Threads.antt.
-- int32 counters wrap; `now` is a wall-clock reading in nanoseconds.
pub mod Soundness
pub mod Streaks
pub mod Recovery
pub mod Threads
pub mod Exclusion
pub mod Solo
pub mod Race
pub mod Keeps
use carrier_gateway.Prelude.{
  ℕ, ◌-◌, ℤ, pos, negsuc, ◌-ℤ◌, ◌+ℤ◌, leb_int, ltb_int, to_int32, half64, Text, Bool, true, false,
  Option, none, some, if◌then◌else◌, ◌==◌,
}
use carrier_gateway.Domain.{Error, sentinel, circuit_open}
use carrier_gateway.Ports.{
  CbState, cb_closed, cb_open, cb_half_open, Env, record_cb_transition, set_cb_state,
}

pub record Config : Type 0 where
  pub failure_threshold : ℤ
  pub success_threshold : ℤ
  pub open_timeout : ℤ

pub record Breaker : Type 0 where
  pub carrier_id : Text
  pub cfg : Config
  pub state : CbState
  pub failures : ℤ
  pub successes : ℤ
  pub half_open_in_flight : ℕ
  pub opened_at : ℤ

abbrev pub default_failure_threshold : ℤ
default_failure_threshold = pos 5

abbrev pub default_open_timeout : ℤ
default_open_timeout = pos 30000000000

-- What `New` makes of a configuration.
unfoldable pub with_defaults : Config → Config
with_defaults c = record {
  failure_threshold =
      if leb_int c.failure_threshold (pos 0)
      then default_failure_threshold
      else c.failure_threshold;
  success_threshold = if leb_int c.success_threshold (pos 0) then pos 1 else c.success_threshold;
  open_timeout = if leb_int c.open_timeout (pos 0) then default_open_timeout else c.open_timeout;
}

-- The breaker that `New` returns: its atomic variables are zero.
unfoldable pub new_breaker : Text → Config → Breaker
unfolding with_defaults
new_breaker carrier_id cfg = record {
  carrier_id = carrier_id;
  cfg = with_defaults cfg;
  state = cb_closed;
  failures = pos 0;
  successes = pos 0;
  half_open_in_flight = 0;
  opened_at = pos 0;
}

abbrev pub same_state : CbState → CbState → Bool
same_state cb_closed cb_closed = true
same_state cb_open cb_open = true
same_state cb_half_open cb_half_open = true
same_state _ _ = false

-- `b.state.CompareAndSwap(old, new)`
unfoldable pub cas_state : CbState → CbState → Breaker → Breaker × Bool
cas_state old new b =
    if same_state b.state old then (record b { state = new }, true) else (b, false)

-- `b.halfOpenInFlight.CompareAndSwap(0, 1)`; the variable is only ever 0 or 1.
unfoldable pub cas_in_flight : Breaker → Breaker × Bool
cas_in_flight b =
    if b.half_open_in_flight == 0 then (record b { half_open_in_flight = 1 }, true) else (b, false)

-- `b.failures.Add(1)` and `b.successes.Add(1)`: the new value is the field's.
unfoldable pub add_failure : Breaker → Breaker
add_failure b = record b { failures = to_int32 (b.failures +ℤ pos 1) }

unfoldable pub add_success : Breaker → Breaker
add_success b = record b { successes = to_int32 (b.successes +ℤ pos 1) }

-- `newFailures >= int32(b.cfg.FailureThreshold)`, and the same of the successes.
unfoldable pub fails_enough : Breaker → Bool
fails_enough b = leb_int (to_int32 b.cfg.failure_threshold) b.failures

unfoldable pub succeeds_enough : Breaker → Bool
succeeds_enough b = leb_int (to_int32 b.cfg.success_threshold) b.successes

-- `time.Since(time.Unix(0, openedAt))`, which stops at the ends of int64.
unfoldable pub since : ℤ → ℤ → ℤ
since now opened_at =
    let d = now -ℤ opened_at in
    if ltb_int d (negsuc (half64 - 1))
    then negsuc (half64 - 1)
    else if leb_int (pos half64) d
    then pos (half64 - 1)
    else d

-- The open circuit has not waited `OpenTimeout` yet.
unfoldable pub is_waiting : ℤ → Breaker → Bool
unfolding since
is_waiting now b = ltb_int (since now b.opened_at) b.cfg.open_timeout

module _ {F W : Type 0} (env : Env F W) where
  -- `RecordCBTransition` and `SetCBState`, which follow each successful swap.
  unfoldable pub emit_transition : Text → CbState → CbState → W → W
  emit_transition carrier_id from to w =
      env.record_metric (set_cb_state carrier_id to)
        (env.record_metric (record_cb_transition carrier_id from to) w)

  -- `New`, which seeds the gauge.
  unfoldable pub start_breaker : Text → Config → W → Breaker × W
  unfolding new_breaker
  start_breaker carrier_id cfg w =
      (new_breaker carrier_id cfg, env.record_metric (set_cb_state carrier_id cb_closed) w)

  -- The rest of `executeClosed` once `fn` has returned.
  unfoldable pub after_closed : Breaker → W → Option Error → Breaker × W × Option Error
  unfolding emit_transition cas_state add_failure fails_enough
  after_closed b w none = (record b { failures = pos 0 }, w, none)
  after_closed b w (some e) =
      let (c, tripped) =
        (if fails_enough (add_failure b)
          then cas_state cb_closed cb_open (add_failure b)
          else (add_failure b, false)) in
      if tripped
      then (
        record c { opened_at = env.now w },
        emit_transition c.carrier_id cb_closed cb_open w,
        some e,
      )
      else (c, w, some e)

  -- The rest of `executeHalfOpen` once the probe has returned, its deferred store included.
  unfoldable pub after_probe : Breaker → W → Option Error → Breaker × W × Option Error
  unfolding emit_transition cas_state add_success succeeds_enough
  after_probe b w (some e) =
      let (c, reopened) = cas_state cb_half_open cb_open b in
      if reopened
      then (
        record c { opened_at = env.now w; successes = pos 0; half_open_in_flight = 0 },
        emit_transition c.carrier_id cb_half_open cb_open w,
        some e,
      )
      else (record c { half_open_in_flight = 0 }, w, some e)
  after_probe b w none =
      let (c, closes) =
        (if succeeds_enough (add_success b)
          then cas_state cb_half_open cb_closed (add_success b)
          else (add_success b, false)) in
      if closes
      then (
        record c { failures = pos 0; successes = pos 0; half_open_in_flight = 0 },
        emit_transition c.carrier_id cb_half_open cb_closed w,
        none,
      )
      else (record c { half_open_in_flight = 0 }, w, none)

  module _ (fn : W → W × Option Error) where
    unfoldable pub execute_closed : Breaker → W → Breaker × W × Option Error
    unfolding after_closed
    execute_closed b w = let (w', r) = fn w in after_closed b w' r

    unfoldable pub execute_half_open : Breaker → W → Breaker × W × Option Error
    unfolding after_probe cas_in_flight
    execute_half_open b w =
        let (c, acquired) = cas_in_flight b in
        if acquired
        then (let (w', r) = fn w in after_probe c w' r)
        else (c, w, some (sentinel circuit_open))

    -- The open case: reject, or move to half-open and go on as there.
    unfoldable pub execute_open : Breaker → W → Breaker × W × Option Error
    unfolding execute_half_open is_waiting cas_state emit_transition
    execute_open b w =
        let (c, moved) = cas_state cb_open cb_half_open b in
        if is_waiting (env.now w) b
        then (b, w, some (sentinel circuit_open))
        else if moved
        then execute_half_open c (emit_transition c.carrier_id cb_open cb_half_open w)
        else execute_half_open c w

    -- The `switch` on the state that was loaded.
    unfoldable pub execute_at : CbState → Breaker → W → Breaker × W × Option Error
    unfolding execute_closed execute_half_open execute_open
    execute_at cb_open b w = execute_open b w
    execute_at cb_half_open b w = execute_half_open b w
    execute_at cb_closed b w = execute_closed b w

    unfoldable pub execute : Breaker → W → Breaker × W × Option Error
    unfolding execute_at
    execute b w = execute_at b.state b w
