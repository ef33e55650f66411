-- ===== src/Metrics.antt =====
-- internal/metrics/prometheus.go and internal/testutil/recorder.go: the two recorders of metrics. The
-- collectors of prometheus/client_golang are a parameter over their state `P`.
pub mod Series
pub mod Registration
use carrier_gateway.Prelude.{
  ℕ, ℤ, pos, ◌+ℤ◌, ◌-ℤ◌, ◌*ℤ◌, quot, to_int64, Text, bytes, List, [], ◌∷◌,
}
use carrier_gateway.Float.{FloatOps}
use carrier_gateway.Ports.{
  CbState, cb_closed, cb_open, cb_half_open, Metric, record_quote, record_hedge,
  record_cb_transition, record_rate_limit_rejection, record_fan_out_duration, set_cb_state,
  set_p95_latency,
}

-- `WithLabelValues(…)` of the collector with a name, and then `Inc`, `Observe` or `Set`.
pub record Collectors (F P : Type 0) : Type 0 where
  pub inc : Text → List Text → P → P
  pub observe : Text → List Text → F → P → P
  pub set_gauge : Text → List Text → F → P → P

abbrev pub metric_cb_state : Text
metric_cb_state = bytes "carrier_circuit_breaker_state"

abbrev pub metric_p95_latency : Text
metric_p95_latency = bytes "carrier_p95_latency_ms"

abbrev pub metric_quote_latency : Text
metric_quote_latency = bytes "carrier_quote_latency_seconds"

abbrev pub metric_fan_out_duration : Text
metric_fan_out_duration = bytes "orchestrator_fan_out_duration_seconds"

abbrev pub metric_requests_total : Text
metric_requests_total = bytes "carrier_requests_total"

abbrev pub metric_hedges_total : Text
metric_hedges_total = bytes "hedge_requests_total"

abbrev pub metric_cb_transitions : Text
metric_cb_transitions = bytes "circuit_breaker_transitions_total"

abbrev pub metric_rate_limit_total : Text
metric_rate_limit_total = bytes "rate_limit_exceeded_total"

-- `cbStateLabel`
unfoldable pub cb_state_label : CbState → Text
cb_state_label cb_closed = bytes "closed"
cb_state_label cb_half_open = bytes "halfopen"
cb_state_label cb_open = bytes "open"

-- The value of a CBState.
abbrev pub cb_state_value : CbState → ℤ
cb_state_value cb_closed = pos 0
cb_state_value cb_open = pos 1
cb_state_value cb_half_open = pos 2

module _ {F P : Type 0} (o : FloatOps F) (c : Collectors F P) where
  -- `Duration.Seconds`
  unfoldable pub seconds : ℤ → F
  seconds d =
      let sec = quot d 1000000000 in
      let nsec = d -ℤ sec *ℤ pos 1000000000 in
      o.add (o.of_int sec) (o.div (o.of_int nsec) (o.of_int (pos 1000000000)))

  -- The methods of PrometheusRecorder.
  unfoldable pub prometheus_record : Metric F → P → P
  unfolding cb_state_label seconds
  prometheus_record (record_quote id latency status) p =
      c.observe metric_quote_latency (id ∷ status ∷ []) (seconds latency)
        (c.inc metric_requests_total (id ∷ status ∷ []) p)
  prometheus_record (record_hedge hedge trigger) p =
      c.inc metric_hedges_total (hedge ∷ trigger ∷ []) p
  prometheus_record (record_cb_transition id from to) p =
      c.inc metric_cb_transitions (id ∷ cb_state_label from ∷ cb_state_label to ∷ []) p
  prometheus_record (record_rate_limit_rejection id) p = c.inc metric_rate_limit_total (id ∷ []) p
  prometheus_record (record_fan_out_duration d) p =
      c.observe metric_fan_out_duration [] (seconds d) p
  prometheus_record (set_cb_state id state) p =
      c.set_gauge metric_cb_state (id ∷ []) (o.of_int (cb_state_value state)) p
  prometheus_record (set_p95_latency id ms) p = c.set_gauge metric_p95_latency (id ∷ []) ms p

  -- What the recorder makes of the metrics, the newest of which stands first.
  unfoldable pub record_all : List (Metric F) → P → P
  unfolding prometheus_record
  record_all [] p = p
  record_all (m ∷ ms) p = prometheus_record m (record_all ms p)

-- The counters of NoopRecorder.
pub record NoopRecorder : Type 0 where
  pub record_quote_count : ℤ
  pub record_hedge_count : ℤ
  pub record_cb_transition_count : ℤ
  pub record_rate_limit_rejection_count : ℤ
  pub record_fan_out_duration_count : ℤ
  pub set_cb_state_count : ℤ
  pub set_p95_latency_count : ℤ

abbrev pub new_noop_recorder : NoopRecorder
new_noop_recorder = record {
  record_quote_count = pos 0;
  record_hedge_count = pos 0;
  record_cb_transition_count = pos 0;
  record_rate_limit_rejection_count = pos 0;
  record_fan_out_duration_count = pos 0;
  set_cb_state_count = pos 0;
  set_p95_latency_count = pos 0;
}

-- `Add(1)` of an atomic.Int64.
abbrev pub add_one : ℤ → ℤ
add_one n = to_int64 (n +ℤ pos 1)

-- The methods of NoopRecorder.
unfoldable pub noop_record : {F : Type 0} → Metric F → NoopRecorder → NoopRecorder
noop_record (record_quote id latency status) n = record n {
  record_quote_count = add_one n.record_quote_count;
}
noop_record (record_hedge hedge trigger) n = record n {
  record_hedge_count = add_one n.record_hedge_count;
}
noop_record (record_cb_transition id from to) n = record n {
  record_cb_transition_count = add_one n.record_cb_transition_count;
}
noop_record (record_rate_limit_rejection id) n = record n {
  record_rate_limit_rejection_count = add_one n.record_rate_limit_rejection_count;
}
noop_record (record_fan_out_duration d) n = record n {
  record_fan_out_duration_count = add_one n.record_fan_out_duration_count;
}
noop_record (set_cb_state id state) n = record n {
  set_cb_state_count = add_one n.set_cb_state_count;
}
noop_record (set_p95_latency id ms) n = record n {
  set_p95_latency_count = add_one n.set_p95_latency_count;
}
