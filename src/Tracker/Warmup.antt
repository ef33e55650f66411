-- ===== src/Tracker/Warmup.antt =====
-- hedging.go: what a tracker holds after a sequence of observations, and when it lets hedges fire.
use carrier_gateway.Prelude.{
  ℕ, ◌+◌, ◌<◌, ℤ, pos, ltb_int, to_int64-pos, half64, ◌≡◌, refl, ◌∙◌, Text, List, [], ◌∷◌, length,
  arith, if◌then◌else◌,
}
use native.Mathlib.Nat.{zero-add}
use carrier_gateway.Domain.{CarrierConfig}
use carrier_gateway.Float.{FloatOps}
use carrier_gateway.Ports.{Env}
use carrier_gateway.Tracker.{Tracker, millisecond, new_tracker, record_latency, hedge_threshold}

module _ {F W : Type 0} (o : FloatOps F) (env : Env F W) where
  abbrev pub record_all : List ℤ → Tracker F → W → Tracker F
  record_all [] t w = t
  record_all (l ∷ ls) t w = let (t', w') = record_latency o env l t w in record_all ls t' w'

  -- The average by itself: each latency counts alpha, what came before 1 - alpha.
  abbrev pub average : F → F → List ℤ → F
  average alpha p95 [] = p95
  average alpha p95 (l ∷ ls) =
      average alpha
        (o.add (o.mul alpha (o.div (o.of_int l) (o.of_int millisecond)))
          (o.mul (o.sub (o.ratio 1 1) alpha) p95))
        ls

  threshold_from :
      (ls : List ℤ) (t : Tracker F) (w : W) (n : ℕ)
      → t.state.observations ≡ pos n
      → n + length ls < half64
      → hedge_threshold o (record_all ls t w) ≡ (
          if ltb_int (pos (n + length ls)) t.warmup
          then o.max_float
          else o.mul (average t.alpha t.state.p95 ls) t.multiplier)
  unfolding hedge_threshold record_latency
  threshold_from [] t w n e h = ground arith
  threshold_from (l ∷ ls) t w n e h = ground (
    arith,
    to_int64-pos (n + 1),
    threshold_from ls (record_latency o env l t w).0 (record_latency o env l t w).1 (n + 1),
  )

  -- From a new tracker, hedging is off until the configured number of latencies has been recorded;
  -- from then on the threshold is the average, seeded with twice the hint, times the multiplier.
  threshold_warmup :
      (carrier_id : Text) (seed : ℤ) (cfg : CarrierConfig F) (ls : List ℤ) (w : W)
      → length ls < half64
      → let t = new_tracker o carrier_id seed cfg in
        hedge_threshold o (record_all ls t w) ≡ (
          if ltb_int (pos (length ls)) cfg.ema_warmup_observations
          then o.max_float
          else o.mul (average t.alpha t.state.p95 ls) cfg.hedge_multiplier)
  unfolding new_tracker
  threshold_warmup carrier_id seed cfg ls w h =
      let t = new_tracker o carrier_id seed cfg in
      threshold_from ls t w 0 refl (omega arith) ∙ rw zero-add
