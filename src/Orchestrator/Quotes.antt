-- ===== src/Orchestrator/Quotes.antt =====
-- orchestrator.go: fanOut as a whole, and GetQuotes.
use carrier_gateway.Prelude.{
  ℤ, pos, ◌-ℤ◌, leb_int, is_empty, Option, none, some, List, [], ◌∷◌, if◌then◌else◌,
}
use carrier_gateway.Domain.{Carrier, Context, QuoteRequest, QuoteResult, Result, ok, err}
use carrier_gateway.Float.{FloatOps}
use carrier_gateway.Ports.{record_fan_out_duration}
use carrier_gateway.Limiter.{TokenBucket}
use carrier_gateway.Orchestrator.State.{Gateway, Orchestrator, without_cancel, with_timeout}
use carrier_gateway.Orchestrator.Collect.{collect, sort_quotes}
use carrier_gateway.Orchestrator.Eligible.{filter_eligible, scoped_key}
use carrier_gateway.Orchestrator.Launch.{Schedule, run_calls}

abbrev pub default_request_timeout : ℤ
default_request_timeout = pos 5000000000

module _ {F B : Type 0} (o : FloatOps F) (tb : TokenBucket F B (Gateway F B)) where
  -- Store the quotes, if there is a repository, a request id and something to store.
  unfoldable pub save_quotes :
      Orchestrator F B → QuoteRequest → List QuoteResult → Gateway F B → Gateway F B
  save_quotes orch req [] g = g
  save_quotes orch req (q ∷ qs) g = elim orch.repo [
    | none ↦ g
    | some repo ↦ if is_empty req.request_id then g else (repo.save (scoped_key req) (q ∷ qs) g).0
  ]

  abbrev pub note_duration : ℤ → Gateway F B → Gateway F B
  note_duration start g = record g {
    metrics = record_fan_out_duration (g.clock -ℤ start) ∷ g.metrics;
  }

  -- What follows the calls: collect, sort, store, and record the duration.
  unfoldable pub finish :
      Orchestrator F B → QuoteRequest → ℤ → Gateway F B → Gateway F B × Result (List QuoteResult)
  unfolding save_quotes
  finish orch req start g =
      let quotes = sort_quotes (collect [] g.channel) in
      (note_duration start (save_quotes orch req quotes g), ok quotes)

  abbrev pub request_timeout : QuoteRequest → ℤ
  request_timeout req = if leb_int req.timeout (pos 0) then default_request_timeout else req.timeout

  -- The fan-out over the carriers that are eligible.
  unfoldable pub fan_over :
      Orchestrator F B
      → Schedule F B
      → Context (Gateway F B)
      → QuoteRequest
      → List (Carrier F)
      → Gateway F B
      → Option (Gateway F B × Result (List QuoteResult))
  unfolding run_calls finish
  fan_over orch sched ctx req [] g = some (note_duration g.clock g, ok [])
  fan_over orch sched ctx req (c ∷ cs) g =
      elim (run_calls o tb orch sched (with_timeout ctx g.clock (request_timeout req)) req (c ∷ cs)
        (record g { channel = [] })) [ none ↦ none | some g' ↦ some (finish orch req g.clock g') ]

  -- `fanOut`; `none` is a nil dereference, which a fully populated orchestrator never meets.
  unfoldable pub fan_out :
      Orchestrator F B
      → Schedule F B
      → Context (Gateway F B)
      → QuoteRequest
      → Gateway F B
      → Option (Gateway F B × Result (List QuoteResult))
  unfolding fan_over
  fan_out orch sched ctx req g =
      fan_over orch sched ctx req (filter_eligible g.breakers req.coverage_lines orch.carriers) g

  -- The single flight: a call in progress with the same key lends its result.
  unfoldable pub fly :
      Orchestrator F B
      → Schedule F B
      → Context (Gateway F B)
      → QuoteRequest
      → Gateway F B
      → Option (Gateway F B × Result (List QuoteResult))
  unfolding fan_out
  fly orch sched ctx req g =
      if is_empty req.request_id
      then fan_out orch sched ctx req g
      else elim (orch.flight (scoped_key req) g) [
        | some shared ↦ some shared
        | none ↦ fan_out orch sched (without_cancel ctx) req g
      ]

  -- The answer of the cache: a hit is returned, a miss and an error go on to the fan-out.
  unfoldable pub after_lookup :
      Orchestrator F B
      → Schedule F B
      → Context (Gateway F B)
      → QuoteRequest
      → Gateway F B × Result (Option (List QuoteResult))
      → Option (Gateway F B × Result (List QuoteResult))
  unfolding fly
  after_lookup orch sched ctx req (g, ok (some cached)) = some (g, ok cached)
  after_lookup orch sched ctx req (g, ok none) = fly orch sched ctx req g
  after_lookup orch sched ctx req (g, err e) = fly orch sched ctx req g

  unfoldable pub get_quotes :
      Orchestrator F B
      → Schedule F B
      → Context (Gateway F B)
      → QuoteRequest
      → Gateway F B
      → Option (Gateway F B × Result (List QuoteResult))
  unfolding after_lookup fly
  get_quotes orch sched ctx req g = elim orch.repo [
    | none ↦ fly orch sched ctx req g
    | some repo ↦
        let found = repo.find_by_request_id (scoped_key req) g in
        if is_empty req.request_id
        then fly orch sched ctx req g
        else after_lookup orch sched ctx req found
  ]
