-- ===== src/Orchestrator/State.antt =====
-- orchestrator.go: what GetQuotes reads and what it changes. `Gateway` holds the mutable objects of
-- all carriers, the clock, the metrics recorded (newest first), the results channel of the fan-out in
-- progress (oldest first), and the quotes table of the database.
use carrier_gateway.Prelude.{ℤ, ◌+ℤ◌, leb_int, Text, Option, none, some, List, ◌∷◌, if◌then◌else◌}
use carrier_gateway.Domain.{
  Carrier, Context, QuoteRequest, QuoteResult, Error, Result, deadline_exceeded,
}
use carrier_gateway.Ports.{Metric, Env}
use carrier_gateway.Repository.{Row}
use carrier_gateway.Breaker.{Breaker}
use carrier_gateway.Limiter.{Limiter}
use carrier_gateway.Tracker.{Tracker}

pub record Gateway (F B : Type 0) : Type 0 where
  pub clock : ℤ
  pub metrics : List (Metric F)
  pub breakers : List (Text × Breaker)
  pub limiters : List (Text × Limiter B)
  pub trackers : List (Text × Tracker F)
  pub channel : List QuoteResult
  pub rows : List Row

-- The recorder and the clock of this process.
abbrev pub gateway_env : {F B : Type 0} → Env F (Gateway F B)
gateway_env = record {
  now = λ g. g.clock;
  record_metric = λ m g. record g { metrics = m ∷ g.metrics };
}

-- adapter.AdapterFunc, the erased form of a carrier's adapter.
abbrev pub AdapterFunc : Type 0 → Type 0
AdapterFunc W = Context W → QuoteRequest → W → W × Result QuoteResult

-- ports.QuoteRepository, with what a find and a save return.
pub record Repository (W : Type 0) : Type 0 where
  pub find_by_request_id : Text → W → W × Result (Option (List QuoteResult))
  pub save : Text → List QuoteResult → W → W × Option Error

-- The fields that are set once. `repo` is nil when no database is configured; `flight` is
-- singleflight.Group: the result of a call with the same key that is in progress, if there is one.
pub record Orchestrator (F B : Type 0) : Type 0 where
  pub carriers : List (Carrier F)
  pub registry : List (Text × AdapterFunc (Gateway F B))
  pub repo : Option (Repository (Gateway F B))
  pub flight : Text → Gateway F B → Option (Gateway F B × Result (List QuoteResult))

-- `context.WithoutCancel(ctx)`
abbrev pub without_cancel : {W : Type 0} → Context W → Context W
without_cancel ctx w = none

-- `context.WithTimeout(ctx, timeout)`, made when the clock read `start`.
unfoldable pub with_timeout : {F B : Type 0} → Context (Gateway F B) → ℤ → ℤ → Context (Gateway F B)
with_timeout ctx start timeout g = elim (ctx g) [
  | some e ↦ some e
  | none ↦ if leb_int (start +ℤ timeout) g.clock then some deadline_exceeded else none
]
