-- ===== src/Examples/Gateways.antt =====
-- The orchestrator at concrete inputs: two carriers, of which alpha's circuit is open.
use mathlib.Core.List.{Permᴰ}
use mathlib.Core.List.Permᴰ
use mathlib.Core.Path.{subst}
use carrier_gateway.Prelude.{
  some_inj, ◌↔◌, ℕ, ◌-◌, ◌*◌, pos, ◌+ℤ◌, ◌≡◌, refl, Text, bytes, text_eq, true, false, none, some,
  List, [], ◌∷◌, arith,
}
use carrier_gateway.Prelude.Maps.{lookup}
use carrier_gateway.Domain.{Carrier, QuoteRequest, QuoteResult, ok}
use carrier_gateway.Ports.{cb_closed, cb_open}
use carrier_gateway.Breaker.{Breaker}
use carrier_gateway.Limiter.{TokenBucket}
use carrier_gateway.Orchestrator.State.{Gateway, AdapterFunc, Orchestrator}
use carrier_gateway.Orchestrator.Launch.{Schedule}
use carrier_gateway.Orchestrator.Collect.{collect, sort_quotes}
use carrier_gateway.Orchestrator.Order.{Ascending}
use carrier_gateway.Orchestrator.Dedup.{first_of, OneEach, answer_lem}
use carrier_gateway.Orchestrator.Arrival.{answers_agree_iff}
use carrier_gateway.Orchestrator.Equipped.{Returns, Same}
use carrier_gateway.Orchestrator.Total.{Tame}
use carrier_gateway.Orchestrator.Serving.{IsPopulated, circuit_stays_open}
use carrier_gateway.Orchestrator.Forever.{Job, serve}
use carrier_gateway.Tracker.{new_tracker}
use carrier_gateway.Examples.{fixed_point}
use carrier_gateway.Examples.Trackers.{config}

-- A bucket of tokens that is never refilled and never waits.
abbrev pub bucket : TokenBucket ℕ ℕ (Gateway ℕ ℕ)
bucket = record {
  new_bucket = λ rate burst. 10;
  wait = λ ctx b g. (b - 1, g, none);
  allow = λ b g. (b - 1, true);
  tokens = λ b g. b * 1000;
}

abbrev pub quote : Text → ℕ → QuoteResult
quote id cents = record {
  request_id = [];
  carrier_id = id;
  premium = record { amount = pos cents; currency = bytes "USD" };
  expires_at = pos 0;
  carrier_ref = [];
  latency = pos 0;
  is_hedged = false;
}

abbrev pub carrier : Text → Carrier ℕ
carrier id = record { id = id; name = id; capabilities = bytes "auto" ∷ []; config = config }

-- An adapter that takes 100ms.
abbrev pub answer : AdapterFunc (Gateway ℕ ℕ)
answer ctx req g = (record g { clock = g.clock +ℤ pos 100000000 }, ok (quote (bytes "beta") 120000))

abbrev pub orch : Orchestrator ℕ ℕ
orch = record {
  carriers = carrier (bytes "alpha") ∷ carrier (bytes "beta") ∷ [];
  registry = (bytes "beta", answer) ∷ [];
  repo = none;
  flight = λ key g. none;
}

abbrev breaker : Text → Breaker
breaker id = record {
  carrier_id = id;
  cfg = record { failure_threshold = pos 3; success_threshold = pos 2; open_timeout = pos 100 };
  state = cb_open;
  failures = pos 3;
  successes = pos 0;
  half_open_in_flight = 0;
  opened_at = pos 0;
}

abbrev pub gateway : Gateway ℕ ℕ
gateway = record {
  clock = pos 50;
  metrics = [];
  breakers =
      (bytes "alpha", breaker (bytes "alpha"))
      ∷ (bytes "beta", record (breaker (bytes "beta")) { state = cb_closed; failures = pos 0 })
      ∷ [];
  limiters =
      (bytes "alpha", record { inner = 10; carrier_id = bytes "alpha" })
      ∷ (bytes "beta", record { inner = 10; carrier_id = bytes "beta" })
      ∷ [];
  trackers =
      (bytes "alpha", new_tracker fixed_point (bytes "alpha") (pos 100000000) config)
      ∷ (bytes "beta", new_tracker fixed_point (bytes "beta") (pos 100000000) config)
      ∷ [];
  channel = [];
  rows = [];
}

-- The monitor's ticker.
abbrev tick : Gateway ℕ ℕ → Gateway ℕ ℕ
tick g = record g { clock = g.clock +ℤ pos 5000000 }

-- The monitor wakes once, before the calls.
abbrev pub schedule : Schedule ℕ ℕ
schedule = record {
  early = λ cs. [];
  late = λ cs. cs;
  wakes = some tick ∷ none ∷ [];
  prefer = λ g. true;
  drained = λ g. false;
  sent = λ f. true;
}

pub only_entry : {V : Type 0} (k j : Text) (v w : V) → lookup k ((j, v) ∷ []) ≡ some w → v ≡ w
unfolding lookup
only_entry k j v w h = ground arith

pub schedule-Tame : Tame bucket orch schedule
schedule-Tame = record {
  adapters = λ k exec h ctx req g.
      subst (λ (f : AdapterFunc (Gateway ℕ ℕ)). Same g (f ctx req g).0)
        (only_entry k (bytes "beta") answer exec h) (refl, (refl, refl));
  waits = λ ctx l g. (refl, (refl, refl));
  saves = λ repo h key qs g. absurd (ground arith);
  wakings = (
    (λ f e g.
        subst (λ (h : Gateway ℕ ℕ → Gateway ℕ ℕ). Same g (h g)) (some_inj e) (refl, (refl, refl))),
    ((λ f e. absurd (ground arith)), tt),
  );
  order = λ cs. Permᴰ.refl cs;
}

pub gateway-IsPopulated : IsPopulated fixed_point bucket orch gateway
unfolding lookup text_eq
gateway-IsPopulated = (
  ((λ e. absurd (ground arith)), ((λ e. absurd (ground arith)), (λ e. absurd (ground arith)))),
  (
    ((λ e. absurd (ground arith)), ((λ e. absurd (ground arith)), (λ e. absurd (ground arith)))),
    tt,
  ),
)

abbrev pub request : QuoteRequest
request = record {
  request_id = bytes "r-1";
  client_id = bytes "c";
  coverage_lines = bytes "auto" ∷ [];
  timeout = pos 0;
}

-- Long after OpenTimeout: the clock reads 50, then an hour passes before each request.
abbrev hour : Gateway ℕ ℕ → Gateway ℕ ℕ
hour g = record g { clock = g.clock +ℤ pos 3600000000000 }

abbrev job : Job ℕ ℕ
job = record { sched = schedule; ctx = λ g. none; req = request; pause = hour }

circuit_stays_open_example :
    Returns
      (λ g. lookup (bytes "alpha") g.breakers ≡ some (breaker (bytes "alpha")))
      (serve fixed_point bucket orch (job ∷ job ∷ []) gateway)
unfolding lookup text_eq
circuit_stays_open_example =
    circuit_stays_open fixed_point bucket orch (bytes "alpha") (breaker (bytes "alpha"))
      (job ∷ job ∷ []) gateway
      (
        (schedule-Tame, (λ g. (refl, (refl, refl)))),
        ((schedule-Tame, (λ g. (refl, (refl, refl)))), tt),
      )
      gateway-IsPopulated refl refl

-- Beta's quote comes twice, once of a hedge.
abbrev channel : List QuoteResult
channel =
    quote (bytes "beta") 120000
    ∷ quote (bytes "alpha") 150000
    ∷ record (quote (bytes "beta") 120000) { is_hedged = true }
    ∷ []

answer_lem_example :
    let rs = sort_quotes (collect [] channel) in
    Ascending rs × OneEach rs × (first_of (bytes "beta") rs ≡ some (quote (bytes "beta") 120000))
unfolding text_eq
answer_lem_example = answer_lem channel (bytes "beta")

answers_agree_iff_example :
    let beta = quote (bytes "beta") 120000 in
    let alpha = quote (bytes "alpha") 150000 in
    (sort_quotes (collect [] (beta ∷ alpha ∷ [])) ≡ sort_quotes (collect [] (alpha ∷ beta ∷ [])))
    ↔ Permᴰ (beta ∷ alpha ∷ []) (alpha ∷ beta ∷ [])
answers_agree_iff_example =
    answers_agree_iff (quote (bytes "beta") 120000 ∷ quote (bytes "alpha") 150000 ∷ [])
      (quote (bytes "alpha") 150000 ∷ quote (bytes "beta") 120000 ∷ [])
      (((λ e. absurd (ground arith)), tt), (tt, tt)) (((λ e. absurd (ground arith)), tt), (tt, tt))
