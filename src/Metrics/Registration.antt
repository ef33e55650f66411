-- ===== src/Metrics/Registration.antt =====
-- prometheus.go: New with its collectors.
use carrier_gateway.Prelude.{Text, bytes, Option, List, [], ◌∷◌}
use carrier_gateway.Float.{FloatOps}
use carrier_gateway.Metrics.{
  metric_cb_state, metric_p95_latency, metric_quote_latency, metric_fan_out_duration,
  metric_requests_total, metric_hedges_total, metric_cb_transitions, metric_rate_limit_total,
}

-- The type of a collector; a histogram has the upper bounds of its buckets.
pub data Kind (F : Type 0) : Type 0 where
  gauge counter : Kind F
  histogram : List F → Kind F

-- What a collector is made of.
pub record CollectorOpts (F : Type 0) : Type 0 where
  pub kind : Kind F
  pub name : Text
  pub help : Text
  pub labels : List Text

-- `MustRegister` of a registry in the state `P`; none is a panic.
pub record Registerer (F P : Type 0) : Type 0 where
  pub must_register : List (CollectorOpts F) → P → Option P

abbrev pub carrier_id : Text
carrier_id = bytes "carrier_id"

module _ {F : Type 0} (o : FloatOps F) where
  abbrev pub quote_latency_buckets : List F
  quote_latency_buckets =
      o.ratio 1 100
      ∷ o.ratio 1 40
      ∷ o.ratio 1 20
      ∷ o.ratio 1 10
      ∷ o.ratio 1 4
      ∷ o.ratio 1 2
      ∷ o.ratio 1 1
      ∷ o.ratio 5 2
      ∷ o.ratio 5 1
      ∷ o.ratio 10 1
      ∷ []

  abbrev pub fan_out_duration_buckets : List F
  fan_out_duration_buckets =
      o.ratio 1 20
      ∷ o.ratio 1 10
      ∷ o.ratio 1 4
      ∷ o.ratio 1 2
      ∷ o.ratio 1 1
      ∷ o.ratio 5 2
      ∷ o.ratio 5 1
      ∷ o.ratio 10 1
      ∷ []

  -- The collectors of New, in the order of MustRegister.
  unfoldable pub prometheus_opts : List (CollectorOpts F)
  prometheus_opts =
      record {
        kind = gauge;
        name = metric_cb_state;
        help = bytes "Current circuit breaker state per carrier (0=closed, 1=open, 2=halfopen).";
        labels = carrier_id ∷ [];
      }
      ∷ record {
        kind = gauge;
        name = metric_p95_latency;
        help = bytes "Current EMA p95 latency in milliseconds per carrier.";
        labels = carrier_id ∷ [];
      }
      ∷ record {
        kind = histogram quote_latency_buckets;
        name = metric_quote_latency;
        help = bytes "Carrier quote round-trip latency in seconds.";
        labels = carrier_id ∷ bytes "status" ∷ [];
      }
      ∷ record {
        kind = histogram fan_out_duration_buckets;
        name = metric_fan_out_duration;
        help = bytes "Total duration of a GetQuotes fan-out in seconds.";
        labels = [];
      }
      ∷ record {
        kind = counter;
        name = metric_requests_total;
        help = bytes "Total number of carrier quote requests by outcome.";
        labels = carrier_id ∷ bytes "status" ∷ [];
      }
      ∷ record {
        kind = counter;
        name = metric_hedges_total;
        help = bytes "Total number of hedge requests fired.";
        labels = carrier_id ∷ bytes "trigger_carrier" ∷ [];
      }
      ∷ record {
        kind = counter;
        name = metric_cb_transitions;
        help = bytes "Total number of circuit breaker state transitions.";
        labels = carrier_id ∷ bytes "from_state" ∷ bytes "to_state" ∷ [];
      }
      ∷ record {
        kind = counter;
        name = metric_rate_limit_total;
        help = bytes "Total number of requests dropped by the rate limiter.";
        labels = carrier_id ∷ [];
      }
      ∷ []

  -- `New`
  unfoldable pub new_prometheus : {P : Type 0} → Registerer F P → P → Option P
  new_prometheus reg p = reg.must_register prometheus_opts p
