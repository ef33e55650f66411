-- ===== src/Examples/Programs.antt =====
-- The command, the started gateway and the recorders at concrete inputs.
use carrier_gateway.Prelude.{
  text_eq_iff, inl, inr, Bool-cases, some_inj, ◌↔◌, take, ℕ, ◌≡◌, refl, pos, Text, bytes, text_eq,
  Bool, true, not, ◌==◌, ◌&&◌, some, none, List, [], ◌∷◌, total, replicate, arith, All,
  if◌then◌else◌,
}
use carrier_gateway.Prelude.Maps.{lookup}
use carrier_gateway.Ports.{
  Metric, record_quote, record_hedge, record_cb_transition, cb_closed, cb_open,
}
use carrier_gateway.Orchestrator.State.{Gateway, Orchestrator, Repository}
use carrier_gateway.Orchestrator.Eligible.{filter_eligible, scoped_key}
use carrier_gateway.Orchestrator.Contract.{SharesCalls, Promised, get_quotes-Promised}
use carrier_gateway.Orchestrator.Cached.{sql_repo}
use carrier_gateway.Orchestrator.Quotes.{fan_out, get_quotes}
use carrier_gateway.Orchestrator.Total.{Tame}
use mathlib.Core.Path.{subst}
use carrier_gateway.Orchestrator.Call.{call_carrier}
use carrier_gateway.Orchestrator.Equipped.{Has, Equipped, Returns, Same}
use carrier_gateway.Orchestrator.Recorded.{RecordsOne, call_carrier-RecordsOne}
use carrier_gateway.Orchestrator.Serving.{IsPopulated, ids}
use carrier_gateway.Command.Keys.{comma}
use carrier_gateway.Command.Scopes.{cache_key, cache_key_iff}
use carrier_gateway.Handler.{Body}
use carrier_gateway.Command.Carriers.{carriers_at}
use carrier_gateway.Command.Assembly.{Adapters, registry_at}
use carrier_gateway.Command.Start.{Chosen}
use carrier_gateway.Command.Program.{start_gateway, program-equips}
use carrier_gateway.Metrics.{
  Collectors, metric_requests_total, metric_quote_latency, metric_hedges_total,
  metric_cb_transitions, cb_state_label, record_all,
}
use carrier_gateway.Metrics.Series.{
  Counts, texts_eq, quote_in, hedge_in, transition_in, record_all-counts,
}
use carrier_gateway.Examples.{fixed_point}
use carrier_gateway.Examples.Gateways.{
  bucket, orch, gateway, schedule, answer, request, carrier, schedule-Tame, gateway-IsPopulated,
}

-- Two keys, the second of 32 bytes.
abbrev first_key : Text
first_key = bytes "test-key-0123456789-abcdefghijklmnop"

abbrev second_key : Text
second_key = replicate 32 0x6B

-- To see that a literal has no comma.
abbrev differs : Text → Bool
differs [] = true
differs (c ∷ s) = not (c == comma) && differs s

-- Another key with the same first eight bytes.
abbrev third_key : Text
third_key = bytes "test-key-another-tenant-xxxxxxxxxxxxx"

abbrev body : Body
body = record { request_id = bytes "r-1"; coverage_lines = bytes "auto" ∷ []; timeout_ms = pos 0 }

cache_key_iff_example :
    (cache_key first_key body ≡ cache_key third_key body)
    ↔ ((take 8 first_key ≡ take 8 third_key) × (bytes "r-1" ≡ bytes "r-1"))
cache_key_iff_example = cache_key_iff first_key third_key body body (omega arith) (omega arith)

-- With the repository on the quotes table, and a single flight in which another goroutine is always
-- about to make the fan-out of the request.
abbrev first : Orchestrator ℕ ℕ
first = record orch { repo = some sql_repo }

first-Tame : Tame bucket first schedule
first-Tame = record {
  adapters = schedule-Tame.adapters;
  waits = schedule-Tame.waits;
  saves = λ repo e key qs g.
      subst (λ (r : Repository (Gateway ℕ ℕ)). Same g (r.save key qs g).0) (some_inj e)
        (refl, (refl, refl));
  wakings = schedule-Tame.wakings;
  order = schedule-Tame.order;
}

abbrev cached : Orchestrator ℕ ℕ
cached = record first {
  flight = λ key g.
      if text_eq (scoped_key request) key
      then fan_out fixed_point bucket first schedule (λ h. none) request g
      else none;
}

cached-Tame : Tame bucket cached schedule
cached-Tame = record {
  adapters = first-Tame.adapters;
  waits = first-Tame.waits;
  saves = first-Tame.saves;
  wakings = first-Tame.wakings;
  order = first-Tame.order;
}

cached-SharesCalls : SharesCalls fixed_point bucket cached
cached-SharesCalls = record {
  shared = λ key g h r e. elim (Bool-cases (text_eq (scoped_key request) key)) [
    | inl same ↦ (
      schedule,
      (
        (λ h. none),
        (request, (first-Tame, ((text_eq_iff (scoped_key request) key).0 same, rw same at e))),
      ),
    )
    | inr other ↦ absurd (ground (arith, other, e))
  ];
}

get_quotes-Promised_example :
    Returns
      (λ r. IsPopulated fixed_point bucket cached r.0 × Promised r.1)
      (get_quotes fixed_point bucket cached schedule (λ g. none) request gateway)
get_quotes-Promised_example =
    get_quotes-Promised fixed_point bucket cached schedule (λ g. none) request gateway cached-Tame
      (inr refl) cached-SharesCalls gateway-IsPopulated

abbrev adapters : Adapters (Gateway ℕ ℕ)
adapters = record { alpha = answer; beta = answer; gamma = answer; delta = answer }

abbrev base_url : Text
base_url = bytes "https://delta.example"

program-equips_example :
    All (λ c. Has c (registry_at adapters base_url)) (ids (carriers_at fixed_point base_url))
    × (All
          (Equipped (start_gateway fixed_point bucket base_url (pos 50)))
          (ids (carriers_at fixed_point base_url))
        × Chosen (bytes "umbrella" ∷ []) (carriers_at fixed_point base_url) (
            filter_eligible
              (start_gateway fixed_point bucket base_url (pos 50)).breakers
              (bytes "umbrella" ∷ [])
              (carriers_at fixed_point base_url)))
program-equips_example =
    program-equips fixed_point bucket adapters base_url (pos 50) (bytes "umbrella" ∷ [])

call_carrier-RecordsOne_example : Returns (RecordsOne fixed_point bucket (bytes "beta") gateway) (
    call_carrier fixed_point bucket orch
      (λ g. true)
      (λ g. none)
      request
      (carrier (bytes "beta"))
      gateway)
unfolding lookup text_eq
call_carrier-RecordsOne_example =
    call_carrier-RecordsOne fixed_point bucket orch (λ g. true) (λ g. none) request
      (carrier (bytes "beta")) answer gateway refl
      ((λ e. absurd (ground arith)), ((λ e. absurd (ground arith)), (λ e. absurd (ground arith))))
      (λ h. refl) (λ l. (refl, (refl, refl)))

-- Collectors that keep a list of the series that were counted.
abbrev Samples : Type 0
Samples = List (Text × List Text)

abbrev sampler : Collectors ℕ Samples
sampler = record {
  inc = λ n ls p. (n, ls) ∷ p;
  observe = λ n ls x p. (n, ls) ∷ p;
  set_gauge = λ n ls x p. p;
}

abbrev sampler_counts : Counts ℕ Samples sampler
sampler_counts = record {
  count = λ n ls. total (λ s. if text_eq s.0 n && texts_eq s.1 ls then 1 else 0);
  count-inc = λ n m ls ks p. refl;
  count-observe = λ n m ls ks x p. refl;
  count-set_gauge = λ n m ls ks x p. refl;
}

abbrev metrics : List (Metric ℕ)
metrics =
    record_quote (bytes "alpha") (pos 5) (bytes "success")
    ∷ record_cb_transition (bytes "beta") cb_closed cb_open
    ∷ record_hedge (bytes "alpha") (bytes "beta")
    ∷ record_quote (bytes "beta") (pos 9) (bytes "error")
    ∷ []

record_all-counts_example :
    let count = sampler_counts.count in
    let after = record_all fixed_point sampler metrics [] in
    let series = bytes "beta" ∷ bytes "error" ∷ [] in
    (count metric_requests_total series after
      ≡ total (quote_in (bytes "beta") (bytes "error")) metrics)
    × ((count metric_quote_latency series after
          ≡ total (quote_in (bytes "beta") (bytes "error")) metrics)
        × ((count metric_hedges_total (bytes "alpha" ∷ bytes "beta" ∷ []) after
              ≡ total (hedge_in (bytes "alpha") (bytes "beta")) metrics)
            × (count metric_cb_transitions
                  (bytes "beta" ∷ cb_state_label cb_closed ∷ cb_state_label cb_open ∷ [])
                  after
                ≡ total (transition_in (bytes "beta") cb_closed cb_open) metrics)))
record_all-counts_example =
    record_all-counts fixed_point sampler sampler_counts metrics (bytes "beta") (bytes "error")
      (bytes "alpha") (bytes "beta") cb_closed cb_open [] (λ n ls. refl)
