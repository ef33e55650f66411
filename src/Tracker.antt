-- ===== src/Tracker.antt =====
-- internal/orchestrator/hedging.go: the moving p95 latency of a carrier. `Record` here is one
-- successful swap; goroutines that race for it are in Tracker/Swaps.antt.
pub mod Warmup
pub mod Swaps
pub mod Linear
use carrier_gateway.Prelude.{
  ℤ, pos, ◌+ℤ◌, ltb_int, quot, to_int64, Text, Bool, ◌||◌, List, [], ◌∷◌, if◌then◌else◌,
}
use carrier_gateway.Domain.{CarrierConfig}
use carrier_gateway.Float.{FloatOps}
use carrier_gateway.Ports.{Env, set_p95_latency}

pub record EmaState (F : Type 0) : Type 0 where
  pub p95 : F
  pub observations : ℤ

pub record Tracker (F : Type 0) : Type 0 where
  pub carrier_id : Text
  pub alpha : F
  pub multiplier : F
  pub warmup : ℤ
  pub state : EmaState F

abbrev pub millisecond : ℤ
millisecond = pos 1000000

module _ {F : Type 0} (o : FloatOps F) where
  -- alpha as the configuration gives it, and 0.1 where that is not between 0 and 1
  unfoldable pub choose_alpha : CarrierConfig F → F
  choose_alpha cfg =
      let alpha =
        (if ltb_int (pos 0) cfg.ema_window_size
          then o.div (o.ratio 2 1) (o.add (o.of_int cfg.ema_window_size) (o.ratio 1 1))
          else cfg.ema_alpha) in
      if (o.lt alpha (o.ratio 0 1) || o.eq alpha (o.ratio 0 1))
        || (o.lt (o.ratio 1 1) alpha || o.eq (o.ratio 1 1) alpha)
      then o.ratio 1 10
      else alpha

  unfoldable pub new_tracker : Text → ℤ → CarrierConfig F → Tracker F
  unfolding choose_alpha
  new_tracker carrier_id seed cfg = record {
    carrier_id = carrier_id;
    alpha = choose_alpha cfg;
    multiplier = cfg.hedge_multiplier;
    warmup = cfg.ema_warmup_observations;
    state = record {
      p95 = o.mul (o.of_int (quot seed 1000000)) (o.ratio 2 1);
      observations = pos 0;
    };
  }

  -- The state that follows `old` at one latency.
  unfoldable pub next_state : F → ℤ → EmaState F → EmaState F
  next_state alpha latency old = record {
    p95 =
        o.add (o.mul alpha (o.div (o.of_int latency) (o.of_int millisecond)))
          (o.mul (o.sub (o.ratio 1 1) alpha) old.p95);
    observations = to_int64 (old.observations +ℤ pos 1);
  }

  unfoldable pub record_latency : {W : Type 0} → Env F W → ℤ → Tracker F → W → Tracker F × W
  unfolding next_state
  record_latency env latency t w =
      let next = next_state t.alpha latency t.state in
      (record t { state = next }, env.record_metric (set_p95_latency t.carrier_id next.p95) w)

  unfoldable pub hedge_threshold : Tracker F → F
  hedge_threshold t =
      if ltb_int t.state.observations t.warmup then o.max_float else o.mul t.state.p95 t.multiplier
