-- ===== src/Metrics/Series.antt =====
-- prometheus.go: what the counters and histograms say of the metrics that were recorded.
use carrier_gateway.Prelude.{
  ℕ, ◌+◌, ◌≡◌, refl, Text, text_eq, Bool, true, false, ◌&&◌, List, [], ◌∷◌, total, arith,
  if◌then◌else◌,
}
use carrier_gateway.Float.{FloatOps}
use carrier_gateway.Ports.{
  CbState, cb_closed, cb_open, cb_half_open, Metric, record_quote, record_hedge,
  record_cb_transition, record_rate_limit_rejection, record_fan_out_duration, set_cb_state,
  set_p95_latency,
}
use carrier_gateway.Breaker.{same_state}
use carrier_gateway.Metrics.{
  Collectors, metric_quote_latency, metric_fan_out_duration, metric_requests_total,
  metric_hedges_total, metric_cb_transitions, metric_rate_limit_total, cb_state_label, seconds,
  prometheus_record, record_all,
}

abbrev pub texts_eq : List Text → List Text → Bool
texts_eq [] [] = true
texts_eq [] (y ∷ ys) = false
texts_eq (x ∷ xs) [] = false
texts_eq (x ∷ xs) (y ∷ ys) = text_eq x y && texts_eq xs ys

-- How often a series was counted or observed, by the name of its collector and its labels.
pub record Counts (F P : Type 0) (c : Collectors F P) : Type 0 where
  pub count : Text → List Text → P → ℕ
  pub count-inc :
      (n m : Text) (ls ks : List Text) (p : P)
      → count n ls (c.inc m ks p) ≡ (if text_eq m n && texts_eq ks ls then 1 else 0) + count n ls p
  pub count-observe :
      (n m : Text) (ls ks : List Text) (x : F) (p : P)
      → count n ls (c.observe m ks x p)
        ≡ (if text_eq m n && texts_eq ks ls then 1 else 0) + count n ls p
  pub count-set_gauge :
      (n m : Text) (ls ks : List Text) (x : F) (p : P)
      → count n ls (c.set_gauge m ks x p) ≡ count n ls p

-- 1 for the series itself.
abbrev hit : Text → List Text → Text → List Text → ℕ
hit m ks n ls = if text_eq m n && texts_eq ks ls then 1 else 0

-- What PrometheusRecorder adds to a series for a metric.
unfoldable added : {F : Type 0} → Text → List Text → Metric F → ℕ
added n ls (record_quote id latency status) =
    hit metric_quote_latency (id ∷ status ∷ []) n ls
    + hit metric_requests_total (id ∷ status ∷ []) n ls
added n ls (record_hedge to from) = hit metric_hedges_total (to ∷ from ∷ []) n ls
added n ls (record_cb_transition id s t) =
    hit metric_cb_transitions (id ∷ cb_state_label s ∷ cb_state_label t ∷ []) n ls
added n ls (record_rate_limit_rejection id) = hit metric_rate_limit_total (id ∷ []) n ls
added n ls (record_fan_out_duration d) = hit metric_fan_out_duration [] n ls
added n ls (set_cb_state id state) = 0
added n ls (set_p95_latency id ms) = 0

-- The metrics that belong to a series.
abbrev pub quote_in : {F : Type 0} → Text → Text → Metric F → ℕ
quote_in id status (record_quote j latency s) =
    if texts_eq (j ∷ s ∷ []) (id ∷ status ∷ []) then 1 else 0
quote_in id status _ = 0

abbrev pub hedge_in : {F : Type 0} → Text → Text → Metric F → ℕ
hedge_in to from (record_hedge j k) = if texts_eq (j ∷ k ∷ []) (to ∷ from ∷ []) then 1 else 0
hedge_in to from _ = 0

abbrev pub transition_in : {F : Type 0} → Text → CbState → CbState → Metric F → ℕ
transition_in id from to (record_cb_transition j s t) =
    if text_eq j id && (same_state s from && same_state t to) then 1 else 0
transition_in id from to _ = 0

-- The labels of two states differ.
label_eq : (s t : CbState) → text_eq (cb_state_label s) (cb_state_label t) ≡ same_state s t
unfolding cb_state_label text_eq
label_eq cb_closed cb_closed = refl
label_eq cb_closed cb_open = refl
label_eq cb_closed cb_half_open = refl
label_eq cb_open cb_closed = refl
label_eq cb_open cb_open = refl
label_eq cb_open cb_half_open = refl
label_eq cb_half_open cb_closed = refl
label_eq cb_half_open cb_open = refl
label_eq cb_half_open cb_half_open = refl

module _ {F : Type 0} where
  added-requests :
      (id status : Text) (m : Metric F)
      → added metric_requests_total (id ∷ status ∷ []) m ≡ quote_in id status m
  unfolding added text_eq
  added-requests id status (record_quote j latency t) = omega arith
  added-requests id status (record_hedge j k) = refl
  added-requests id status (record_cb_transition j x y) = refl
  added-requests id status (record_rate_limit_rejection j) = refl
  added-requests id status (record_fan_out_duration d) = refl
  added-requests id status (set_cb_state j x) = refl
  added-requests id status (set_p95_latency j x) = refl

  added-latencies :
      (id status : Text) (m : Metric F)
      → added metric_quote_latency (id ∷ status ∷ []) m ≡ quote_in id status m
  unfolding added text_eq
  added-latencies id status (record_quote j latency t) = omega arith
  added-latencies id status (record_hedge j k) = refl
  added-latencies id status (record_cb_transition j x y) = refl
  added-latencies id status (record_rate_limit_rejection j) = refl
  added-latencies id status (record_fan_out_duration d) = refl
  added-latencies id status (set_cb_state j x) = refl
  added-latencies id status (set_p95_latency j x) = refl

  added-hedges :
      (to from : Text) (m : Metric F)
      → added metric_hedges_total (to ∷ from ∷ []) m ≡ hedge_in to from m
  unfolding added text_eq
  added-hedges to from (record_quote j latency t) = refl
  added-hedges to from (record_hedge j k) = refl
  added-hedges to from (record_cb_transition j x y) = refl
  added-hedges to from (record_rate_limit_rejection j) = refl
  added-hedges to from (record_fan_out_duration d) = refl
  added-hedges to from (set_cb_state j x) = refl
  added-hedges to from (set_p95_latency j x) = refl

  added-transitions :
      (id : Text) (from to : CbState) (m : Metric F)
      → added metric_cb_transitions (id ∷ cb_state_label from ∷ cb_state_label to ∷ []) m
        ≡ transition_in id from to m
  unfolding added text_eq
  added-transitions id from to (record_quote j latency t) = refl
  added-transitions id from to (record_hedge j k) = refl
  added-transitions id from to (record_cb_transition j x y) =
      ground (arith, label_eq x from, label_eq y to)
  added-transitions id from to (record_rate_limit_rejection j) = refl
  added-transitions id from to (record_fan_out_duration d) = refl
  added-transitions id from to (set_cb_state j x) = refl
  added-transitions id from to (set_p95_latency j x) = refl

module _ {F P : Type 0} (o : FloatOps F) (c : Collectors F P) (s : Counts F P c) where
  record-added :
      (n : Text) (ls : List Text) (m : Metric F) (p : P)
      → s.count n ls (prometheus_record o c m p) ≡ added n ls m + s.count n ls p
  unfolding prometheus_record added
  record-added n ls (record_quote id latency status) p = omega (
    arith,
    s.count-observe n metric_quote_latency ls (id ∷ status ∷ []) (seconds o c latency)
        (c.inc metric_requests_total (id ∷ status ∷ []) p),
    s.count-inc n metric_requests_total ls (id ∷ status ∷ []) p,
  )
  record-added n ls (record_hedge to from) p = s.count-inc n _ ls _ p
  record-added n ls (record_cb_transition id x y) p = s.count-inc n _ ls _ p
  record-added n ls (record_rate_limit_rejection id) p = s.count-inc n _ ls _ p
  record-added n ls (record_fan_out_duration d) p = s.count-observe n _ ls _ (seconds o c d) p
  record-added n ls (set_cb_state id x) p = omega (arith, s.count-set_gauge n _ ls _ _ p)
  record-added n ls (set_p95_latency id x) p = omega (arith, s.count-set_gauge n _ ls _ _ p)

  record_all-total :
      (n : Text) (ls : List Text) (weight : Metric F → ℕ)
      → ((m : Metric F) → added n ls m ≡ weight m)
      → (ms : List (Metric F)) (p : P)
      → s.count n ls (record_all o c ms p) ≡ total weight ms + s.count n ls p
  unfolding record_all
  record_all-total n ls weight h [] p = omega arith
  record_all-total n ls weight h (m ∷ ms) p =
      omega
        (arith, h m, record-added n ls m (record_all o c ms p), record_all-total n ls weight h ms p)

  from_zero :
      (n : Text) (ls : List Text) (weight : Metric F → ℕ)
      → ((m : Metric F) → added n ls m ≡ weight m)
      → (ms : List (Metric F)) (p : P) → ((k : Text) (ks : List Text) → s.count k ks p ≡ 0)
      → s.count n ls (record_all o c ms p) ≡ total weight ms
  from_zero n ls weight a ms p h = omega (arith, h n ls, record_all-total n ls weight a ms p)

  -- From a registry without samples, the counter of the requests and the histogram of the latencies
  -- have each counted, for every carrier and status, the outcomes recorded with them, the counter of
  -- the hedges those of every pair of carriers, and the counter of the transitions those of every
  -- carrier between every pair of states.
  pub record_all-counts :
      (ms : List (Metric F)) (id status to from : Text) (x y : CbState) (p : P)
      → ((n : Text) (ls : List Text) → s.count n ls p ≡ 0)
      → let after = record_all o c ms p in
        (s.count metric_requests_total (id ∷ status ∷ []) after ≡ total (quote_in id status) ms)
        × ((s.count metric_quote_latency (id ∷ status ∷ []) after ≡ total (quote_in id status) ms)
            × ((s.count metric_hedges_total (to ∷ from ∷ []) after ≡ total (hedge_in to from) ms)
                × (s.count metric_cb_transitions
                      (id ∷ cb_state_label x ∷ cb_state_label y ∷ [])
                      after
                    ≡ total (transition_in id x y) ms)))
  record_all-counts ms id status to from x y p h = (
    from_zero metric_requests_total (id ∷ status ∷ []) (quote_in id status)
        (added-requests id status) ms p h,
    (
      from_zero metric_quote_latency (id ∷ status ∷ []) (quote_in id status)
          (added-latencies id status) ms p h,
      (
        from_zero metric_hedges_total (to ∷ from ∷ []) (hedge_in to from) (added-hedges to from) ms
            p h,
        from_zero metric_cb_transitions (id ∷ cb_state_label x ∷ cb_state_label y ∷ [])
            (transition_in id x y) (added-transitions id x y) ms p h,
      ),
    ),
  )
