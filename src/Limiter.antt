-- ===== src/Limiter.antt =====
-- internal/ratelimiter/limiter.go. The token bucket is golang.org/x/time/rate, which is a parameter:
-- `wait` may let time pass and other goroutines run, so it returns a new world.
use carrier_gateway.Prelude.{ℤ, Text, Bool, ◌||◌, Option, none, some, if◌then◌else◌}
use carrier_gateway.Domain.{
  RateLimitConfig, Context, Error, sentinel, error_is, canceled, deadline_exceeded,
  rate_limit_exceeded,
}
use carrier_gateway.Ports.{Env, record_rate_limit_rejection}

-- `rate.NewLimiter`, `Wait`, `Allow` and `Tokens`.
pub record TokenBucket (F B W : Type 0) : Type 0 where
  pub new_bucket : F → ℤ → B
  pub wait : Context W → B → W → B × W × Option Error
  pub allow : B → W → B × Bool
  pub tokens : B → W → F

pub record Limiter (B : Type 0) : Type 0 where
  pub inner : B
  pub carrier_id : Text

module _ {F B W : Type 0} (tb : TokenBucket F B W) (env : Env F W) where
  unfoldable pub new_limiter : Text → RateLimitConfig F → Limiter B
  new_limiter carrier_id cfg = record {
    inner = tb.new_bucket cfg.tokens_per_second cfg.burst;
    carrier_id = carrier_id;
  }

  -- What `Wait` makes of the bucket's answer.
  unfoldable pub normalise : Text → W → Option Error → W × Option Error
  normalise carrier_id w none = (w, none)
  normalise carrier_id w (some e) =
      if error_is e canceled || error_is e deadline_exceeded
      then (
        env.record_metric (record_rate_limit_rejection carrier_id) w,
        some (sentinel rate_limit_exceeded),
      )
      else (w, some e)

  unfoldable pub wait_limiter : Context W → Limiter B → W → Limiter B × W × Option Error
  unfolding normalise
  wait_limiter ctx l w =
      let (inner, w', r) = tb.wait ctx l.inner w in
      let (w'', r') = normalise l.carrier_id w' r in (record l { inner = inner }, w'', r')

  unfoldable pub try_acquire : Limiter B → W → Limiter B × Bool
  try_acquire l w =
      let (inner, allowed) = tb.allow l.inner w in (record l { inner = inner }, allowed)
