-- ===== src/Ports.antt =====
-- internal/ports: the states of a circuit breaker and the metrics that a component emits.
-- `MetricsRecorder` is a side effect: each of its methods is a constructor of `Metric`, and a
-- component that records one hands it to `record_metric` of its environment, which also has the clock.
use carrier_gateway.Prelude.{ℤ, Text}

pub data CbState : Type 0 where
  cb_closed cb_open cb_half_open : CbState

pub data Metric (F : Type 0) : Type 0 where
  record_quote : Text → ℤ → Text → Metric F
  record_hedge : Text → Text → Metric F
  record_cb_transition : Text → CbState → CbState → Metric F
  record_rate_limit_rejection : Text → Metric F
  record_fan_out_duration : ℤ → Metric F
  set_cb_state : Text → CbState → Metric F
  set_p95_latency : Text → F → Metric F

-- What the rest of the process is to a component: `now` reads the clock.
pub record Env (F W : Type 0) : Type 0 where
  pub now : W → ℤ
  pub record_metric : Metric F → W → W
