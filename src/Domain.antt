-- ===== src/Domain.antt =====
-- internal/domain: the value types and the sentinel errors. A duration is an int64 of nanoseconds,
-- a time the nanoseconds since the Unix epoch, a string its bytes. The floating-point type `F` is
-- a parameter (Float.antt).
use carrier_gateway.Prelude.{
  ℤ, Text, bytes, Bool, true, false, List, Option, ◌≡◌, refl, ◌⊎◌, inl, inr,
}

pub record RateLimitConfig (F : Type 0) : Type 0 where
  pub tokens_per_second : F
  pub burst : ℤ

pub record CarrierConfig (F : Type 0) : Type 0 where
  pub timeout_hint : ℤ
  pub open_timeout : ℤ
  pub failure_threshold : ℤ
  pub success_threshold : ℤ
  pub hedge_multiplier : F
  pub ema_alpha : F
  pub ema_window_size : ℤ
  pub ema_warmup_observations : ℤ
  pub rate_limit : RateLimitConfig F
  pub priority : ℤ

pub record Carrier (F : Type 0) : Type 0 where
  pub id : Text
  pub name : Text
  pub capabilities : List Text
  pub config : CarrierConfig F

-- `CoverageLine` is a string with three named constants.
abbrev pub coverage_line_auto : Text
coverage_line_auto = bytes "auto"

abbrev pub coverage_line_homeowners : Text
coverage_line_homeowners = bytes "homeowners"

abbrev pub coverage_line_umbrella : Text
coverage_line_umbrella = bytes "umbrella"

pub record Money : Type 0 where
  pub amount : ℤ
  pub currency : Text

pub record QuoteRequest : Type 0 where
  pub request_id : Text
  pub client_id : Text
  pub coverage_lines : List Text
  pub timeout : ℤ

pub record QuoteResult : Type 0 where
  pub request_id : Text
  pub carrier_id : Text
  pub premium : Money
  pub expires_at : ℤ
  pub carrier_ref : Text
  pub latency : ℤ
  pub is_hedged : Bool

-- The sentinels of errors.go, and the two of the context package that the code tests for.
pub data Sentinel : Type 0 where
  circuit_open rate_limit_exceeded no_eligible_carriers carrier_timeout : Sentinel
  carrier_unavailable invalid_request : Sentinel
  canceled deadline_exceeded : Sentinel

-- An error value: a sentinel, one that wraps nothing, or `fmt.Errorf("…%w", e)`.
pub data Error : Type 0 where
  sentinel : Sentinel → Error
  opaque : Text → Error
  wrap : Text → Error → Error

abbrev pub same_sentinel : Sentinel → Sentinel → Bool
same_sentinel circuit_open circuit_open = true
same_sentinel rate_limit_exceeded rate_limit_exceeded = true
same_sentinel no_eligible_carriers no_eligible_carriers = true
same_sentinel carrier_timeout carrier_timeout = true
same_sentinel carrier_unavailable carrier_unavailable = true
same_sentinel invalid_request invalid_request = true
same_sentinel canceled canceled = true
same_sentinel deadline_exceeded deadline_exceeded = true
same_sentinel _ _ = false

-- `errors.Is(err, target)`, which walks the chain of wrapped errors.
unfoldable pub error_is : Error → Sentinel → Bool
error_is (sentinel s) t = same_sentinel s t
error_is (opaque msg) t = false
error_is (wrap msg e) t = error_is e t

-- `(A, error)`, where the value is used only if the error is nil.
pub data Result {ℓ} (A : Type ℓ) : Type ℓ where
  ok : A → Result A
  err : Error → Result A

pub Result-cases :
    {A : Type 0} (r : Result A) → ((a : A) × (r ≡ ok a)) ⊎ ((e : Error) × (r ≡ err e))
Result-cases (ok a) = inl (a, refl)
Result-cases (err e) = inr (e, refl)

-- A context, as what `ctx.Err()` says in a state of the world.
abbrev pub Context : Type 0 → Type 0
Context W = W → Option Sentinel
