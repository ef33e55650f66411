-- ===== src/Command/Assembly.antt =====
-- How main.go puts the gateway together: the registry, and for each carrier its breaker, limiter and
-- tracker.
use carrier_gateway.Prelude.{
  ℤ, pos, leb_int, ltb_int, Text, bytes, is_empty, Option, none, some, List, [], ◌∷◌, if◌then◌else◌,
}
use carrier_gateway.Prelude.Maps.{insert}
use carrier_gateway.Domain.{Carrier, CarrierConfig, QuoteResult, Result}
use carrier_gateway.Float.{FloatOps}
use carrier_gateway.Adapter.{Registry, new_registry, register_adapter}
use carrier_gateway.Breaker.{Config, start_breaker}
use carrier_gateway.Limiter.{TokenBucket, new_limiter}
use carrier_gateway.Tracker.{new_tracker}
use carrier_gateway.Orchestrator.State.{Gateway, gateway_env, AdapterFunc, Orchestrator, Repository}

abbrev pub breaker_config : {F : Type 0} → CarrierConfig F → Config
breaker_config c = record {
  failure_threshold = c.failure_threshold;
  success_threshold = c.success_threshold;
  open_timeout = c.open_timeout;
}

abbrev pub empty_gateway : {F : Type 0} (B : Type 0) → ℤ → Gateway F B
empty_gateway B clock = record {
  clock = clock;
  metrics = [];
  breakers = [];
  limiters = [];
  trackers = [];
  channel = [];
  rows = [];
}

module _ {F B : Type 0} (o : FloatOps F) (tb : TokenBucket F B (Gateway F B)) where
  -- One turn of the loop over the carriers.
  unfoldable pub equip : Carrier F → Gateway F B → Gateway F B
  equip c g =
      let (b, g') = start_breaker gateway_env c.id (breaker_config c.config) g in
      record g' {
        breakers = insert c.id b g'.breakers;
        limiters = insert c.id (new_limiter tb gateway_env c.id c.config.rate_limit) g'.limiters;
        trackers = insert c.id (new_tracker o c.id c.config.timeout_hint c.config) g'.trackers;
      }

  unfoldable pub equip_all : List (Carrier F) → Gateway F B → Gateway F B
  unfolding equip
  equip_all [] g = g
  equip_all (c ∷ cs) g = equip_all cs (equip c g)

-- The adapters of the mock carriers, and of the carrier that is reached by HTTP.
pub record Adapters (W : Type 0) : Type 0 where
  pub alpha : AdapterFunc W
  pub beta : AdapterFunc W
  pub gamma : AdapterFunc W
  pub delta : AdapterFunc W

-- `Registry.Register` of each, the last one at a value of DELTA_BASE_URL.
unfoldable pub registry_at : {W : Type 0} → Adapters W → Text → Registry W
registry_at a base_url =
    let mocks =
      (register_adapter (bytes "gamma") a.gamma (
        register_adapter (bytes "beta") a.beta
          (register_adapter (bytes "alpha") a.alpha new_registry))) in
    if is_empty base_url then mocks else register_adapter (bytes "delta") a.delta mocks

-- `orchestrator.New`, but for the poll interval.
abbrev pub new_orchestrator :
    {F B : Type 0}
    → List (Carrier F)
    → List (Text × AdapterFunc (Gateway F B))
    → Option (Repository (Gateway F B))
    → (Text → Gateway F B → Option (Gateway F B × Result (List QuoteResult)))
    → Orchestrator F B
new_orchestrator carriers registry repo flight = record {
  carriers = carriers;
  registry = registry;
  repo = repo;
  flight = flight;
}

abbrev pub default_hedge_poll_interval : ℤ
default_hedge_poll_interval = pos 5000000

-- The poll interval that `orchestrator.New` keeps.
unfoldable pub poll_interval : ℤ → ℤ
poll_interval configured =
    if leb_int configured (pos 0) then default_hedge_poll_interval else configured

-- MAX_CONCURRENT_QUOTES and CLEANUP_INTERVAL: `parsed` is what strconv.Atoi or time.ParseDuration
-- makes of the variable, if it makes anything of it.
abbrev pub default_max_concurrent : ℤ
default_max_concurrent = pos 100

unfoldable pub max_concurrent : Text → Option ℤ → ℤ
max_concurrent [] parsed = default_max_concurrent
max_concurrent (b ∷ raw) none = default_max_concurrent
max_concurrent (b ∷ raw) (some n) = if ltb_int (pos 0) n then n else default_max_concurrent

abbrev pub default_cleanup_interval : ℤ
default_cleanup_interval = pos 300000000000

unfoldable pub cleanup_interval : Text → Option ℤ → ℤ
cleanup_interval [] parsed = default_cleanup_interval
cleanup_interval (b ∷ raw) none = default_cleanup_interval
cleanup_interval (b ∷ raw) (some d) = d
