-- ===== src/Orchestrator/Call.antt =====
-- orchestrator.go, callCarrier: rate limiter, then circuit breaker, then adapter, for one carrier,
-- as it runs while no other goroutine uses that carrier's objects.
use carrier_gateway.Prelude.{
  ℤ, pos, ◌-ℤ◌, Text, bytes, Bool, true, false, ◌||◌, Option, none, some, [], ◌∷◌, ◌++◌,
  if◌then◌else◌,
}
use carrier_gateway.Prelude.Maps.{lookup, insert}
use carrier_gateway.Domain.{
  Carrier, Context, QuoteRequest, QuoteResult, Error, ok, err, error_is, circuit_open,
  rate_limit_exceeded, deadline_exceeded, carrier_timeout,
}
use carrier_gateway.Float.{FloatOps}
use carrier_gateway.Ports.{record_quote}
use carrier_gateway.Breaker.{execute}
use carrier_gateway.Limiter.{TokenBucket, Limiter, wait_limiter}
use carrier_gateway.Tracker.{Tracker, record_latency}
use carrier_gateway.Orchestrator.State.{Gateway, gateway_env, AdapterFunc, Orchestrator}

-- The status label of a failed call.
unfoldable pub classify_error : Error → Text
classify_error e =
    if error_is e circuit_open
    then bytes "circuit_open"
    else if error_is e rate_limit_exceeded
    then bytes "rate_limited"
    else if error_is e deadline_exceeded || error_is e carrier_timeout
    then bytes "timeout"
    else bytes "error"

module _ {F B : Type 0} (o : FloatOps F) (tb : TokenBucket F B (Gateway F B)) where
  abbrev pub note_quote : Text → ℤ → Text → Gateway F B → Gateway F B
  note_quote carrier_id latency status g = record g {
    metrics = record_quote carrier_id latency status ∷ g.metrics;
  }

  -- `tracker.Record(latency)`; `guarded_call` has the nil dereference of a missing tracker.
  unfoldable pub note_latency : Text → ℤ → Gateway F B → Gateway F B
  note_latency carrier_id latency g = elim (lookup carrier_id g.trackers) [
    | none ↦ g
    | some t ↦
        let (t', g') = record_latency o gateway_env latency t g in
        record g' { trackers = insert carrier_id t' g'.trackers }
  ]

  -- The `select` that sends a result. The channel has room for every result of the fan-out, so the
  -- send is always ready; when the context is done too, `prefer` says which case Go takes.
  unfoldable pub send :
      (Gateway F B → Bool) → Context (Gateway F B) → QuoteResult → Gateway F B → Gateway F B
  send prefer ctx result g =
      let g' = record g { channel = g.channel ++ result ∷ [] } in
      elim (ctx g) [ none ↦ g' | some e ↦ if prefer g then g' else g ]

  -- The closure that the breaker runs.
  unfoldable pub quote_fn :
      (Gateway F B → Bool)
      → Context (Gateway F B)
      → Text
      → QuoteRequest
      → ℤ
      → AdapterFunc (Gateway F B)
      → Gateway F B
      → Gateway F B × Option Error
  unfolding send note_latency
  quote_fn prefer ctx carrier_id req call_start exec g =
      let (g', r) = exec ctx req g in
      elim r [
        | err e ↦ (g', some e)
        | ok result ↦
            let latency = g'.clock -ℤ call_start in
            let g'' =
              note_quote carrier_id latency (bytes "success")
                (note_latency carrier_id latency g') in
            (
              send prefer ctx (record result { request_id = req.request_id; latency = latency })
                  g'',
              none,
            )
      ]

  -- After the breaker: an error is recorded with its status.
  unfoldable pub note_failure : Text → ℤ → Option Error → Gateway F B → Gateway F B
  note_failure carrier_id call_start none g = g
  note_failure carrier_id call_start (some e) g =
      note_quote carrier_id (g.clock -ℤ call_start) (classify_error e) g

  -- The call has used a nil tracker: there is none, and the closure has run without an error, which it
  -- does exactly when it gets to Record.
  abbrev pub uses_nil : Option (Tracker F) → Option Error → Bool
  uses_nil none none = true
  uses_nil none (some e) = false
  uses_nil (some t) r = false

  -- Step 2: the circuit breaker wraps the adapter call. `none` is a nil dereference.
  unfoldable pub guarded_call :
      (Gateway F B → Bool)
      → Context (Gateway F B)
      → Text
      → QuoteRequest
      → AdapterFunc (Gateway F B)
      → Gateway F B
      → Option (Gateway F B)
  unfolding quote_fn note_failure
  guarded_call prefer ctx carrier_id req exec g = elim (lookup carrier_id g.breakers) [
    | none ↦ none
    | some b ↦
        let (b', g', r) =
          execute gateway_env (quote_fn prefer ctx carrier_id req g.clock exec) b g in
        if uses_nil (lookup carrier_id g.trackers) r
        then none
        else some (
            note_failure carrier_id g.clock r
              (record g' { breakers = insert carrier_id b' g'.breakers }))
  ]

  -- Step 1: the rate limiter, which blocks until there is a token or the context is done.
  unfoldable pub limited_call :
      (Gateway F B → Bool)
      → Context (Gateway F B)
      → Text
      → QuoteRequest
      → AdapterFunc (Gateway F B)
      → Limiter B
      → Gateway F B
      → Option (Gateway F B)
  unfolding guarded_call
  limited_call prefer ctx carrier_id req exec l g =
      let (l', g', r) = wait_limiter tb gateway_env ctx l g in
      let g'' = record g' { limiters = insert carrier_id l' g'.limiters } in
      elim r [
        | some e ↦ some (note_quote carrier_id (pos 0) (bytes "rate_limited") g'')
        | none ↦ guarded_call prefer ctx carrier_id req exec g''
      ]

  unfoldable pub call_carrier :
      Orchestrator F B
      → (Gateway F B → Bool)
      → Context (Gateway F B)
      → QuoteRequest
      → Carrier F
      → Gateway F B
      → Option (Gateway F B)
  unfolding limited_call
  call_carrier orch prefer ctx req c g = elim (lookup c.id orch.registry) [
    | none ↦ some g
    | some exec ↦ elim (lookup c.id g.limiters) [
      | none ↦ none
      | some l ↦ limited_call prefer ctx c.id req exec l g
    ]
  ]
