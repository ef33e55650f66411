-- ===== src/Orchestrator/Lockout.antt =====
-- orchestrator.go: an open circuit and the eligibility filter. Breaker.Execute is the only code that
-- moves a circuit out of the open state, and callCarrier is the only code that calls it.
use carrier_gateway.Prelude.{
  ℤ, ◌≡◌, ◌≢◌, ◌∙◌, ap, Text, text_eq_iff, Bool, Option, none, some, List, arith, Bool-cases,
  Option-cases, ◌||◌, inl, inr,
}
use carrier_gateway.Prelude.Maps.{lookup, insert, lookup-insert}
use carrier_gateway.Domain.{
  Carrier, Context, QuoteRequest, QuoteResult, Error, error_is, canceled, deadline_exceeded,
  Result-cases,
}
use carrier_gateway.Float.{FloatOps}
use carrier_gateway.Breaker.{Breaker, execute}
use carrier_gateway.Breaker.Keeps.{execute-keeps}
use carrier_gateway.Hedging.Keeps.{IfSome, IfSome-unless}
use carrier_gateway.Limiter.{TokenBucket, Limiter, wait_limiter, normalise}
use carrier_gateway.Tracker.{record_latency}
use carrier_gateway.Orchestrator.State.{Gateway, gateway_env, AdapterFunc, Orchestrator}
use carrier_gateway.Orchestrator.Call.{
  call_carrier, limited_call, guarded_call, quote_fn, uses_nil, note_failure, note_latency, send,
}

-- Code that does not touch the circuit breakers.
abbrev pub Leaves : {F B : Type 0} → (Gateway F B → Gateway F B) → Type 0
Leaves {F} {B} f = (g : Gateway F B) → (f g).breakers ≡ g.breakers

module _ {F B : Type 0} (o : FloatOps F) (tb : TokenBucket F B (Gateway F B)) (id : Text)
    (b : Breaker) where
  -- The circuit breaker of the carrier is `b`.
  abbrev pub Has : Gateway F B → Type 0
  Has g = lookup id g.breakers ≡ some b

  pub Leaves-Has :
      (f : Gateway F B → Gateway F B) → Leaves f → (g : Gateway F B) → Has g → Has (f g)
  Leaves-Has f leaves g h = ap (lookup id) (leaves g) ∙ h

  note_latency-Has :
      (k : Text) (latency : ℤ) (g : Gateway F B) → Has g → Has (note_latency o tb k latency g)
  unfolding note_latency record_latency
  note_latency-Has k latency g h = elim (Option-cases (lookup k g.trackers)) [
    | inl e ↦ rw (e, note_latency) h
    | inr (t, e) ↦ rw (e, note_latency) h
  ]

  send-Has :
      (prefer : Gateway F B → Bool) (ctx : Context (Gateway F B)) (r : QuoteResult)
      (g : Gateway F B)
      → Has g
      → Has (send o tb prefer ctx r g)
  unfolding send
  send-Has prefer ctx r g h = ground arith

  -- The closure, if the adapter leaves the breakers alone.
  quote_fn-Has :
      (prefer : Gateway F B → Bool) (ctx : Context (Gateway F B)) (k : Text) (req : QuoteRequest)
      (start : ℤ) (exec : AdapterFunc (Gateway F B))
      → Leaves (λ g. (exec ctx req g).0)
      → (g : Gateway F B) → Has g
      → Has (quote_fn o tb prefer ctx k req start exec g).0
  unfolding quote_fn
  quote_fn-Has prefer ctx k req start exec leaves g h =
      let h' = Leaves-Has (λ x. (exec ctx req x).0) leaves g h in
      elim (Result-cases (exec ctx req g).1) [
        | inl (r, e) ↦ rw (e, quote_fn) (send-Has prefer ctx _ _ (note_latency-Has k _ _ h'))
        | inr (x, e) ↦ rw (e, quote_fn) h'
      ]

  note_failure-Has :
      (k : Text) (start : ℤ) (r : Option Error) (g : Gateway F B)
      → Has g
      → Has (note_failure o tb k start r g)
  unfolding note_failure
  note_failure-Has k start none g h = h
  note_failure-Has k start (some e) g h = h

  insert-Has :
      (k : Text) (c : Breaker) (m : List (Text × Breaker))
      → k ≢ id
      → lookup id m ≡ some b
      → lookup id (insert k c m) ≡ some b
  insert-Has k c m d h = ground (arith, lookup-insert k id c m, text_eq_iff k id)

  guarded_call-Has :
      (prefer : Gateway F B → Bool) (ctx : Context (Gateway F B)) (k : Text) (req : QuoteRequest)
      (exec : AdapterFunc (Gateway F B)) (g : Gateway F B)
      → k ≢ id
      → Leaves (λ x. (exec ctx req x).0)
      → Has g
      → IfSome Has (guarded_call o tb prefer ctx k req exec g)
  unfolding guarded_call
  guarded_call-Has prefer ctx k req exec g d leaves h = elim (Option-cases (lookup k g.breakers)) [
    | inl missing ↦ rw (missing, guarded_call) tt
    | inr (c, found) ↦
        let fn = quote_fn o tb prefer ctx k req g.clock exec in
        let (c', g', r) = execute gateway_env fn c g in
        rw (found, guarded_call)
          (IfSome-unless Has (uses_nil o tb (lookup k g.trackers) r) _ (
            note_failure-Has k g.clock r (record g' { breakers = insert k c' g'.breakers })
              (insert-Has k c' g'.breakers d (
                execute-keeps gateway_env Has (λ m w h'. h') fn
                  (quote_fn-Has prefer ctx k req g.clock exec leaves) c g h))))
  ]

  normalise-Has :
      (k : Text) (w : Gateway F B) (r : Option Error)
      → Has w
      → Has (normalise tb gateway_env k w r).0
  unfolding normalise
  normalise-Has k w none h = h
  normalise-Has k w (some e) h =
      elim (Bool-cases (error_is e canceled || error_is e deadline_exceeded)) [
        | inl t ↦ rw (t, normalise) h
        | inr t ↦ rw (t, normalise) h
      ]

  wait-Has :
      (ctx : Context (Gateway F B)) (l : Limiter B) (g : Gateway F B)
      → Leaves (λ x. (tb.wait ctx l.inner x).1)
      → Has g
      → Has (wait_limiter tb gateway_env ctx l g).1
  unfolding wait_limiter
  wait-Has ctx l g leaves h =
      normalise-Has l.carrier_id (tb.wait ctx l.inner g).1 (tb.wait ctx l.inner g).2
        (Leaves-Has (λ x. (tb.wait ctx l.inner x).1) leaves g h)

  limited_call-Has :
      (prefer : Gateway F B → Bool) (ctx : Context (Gateway F B)) (k : Text) (req : QuoteRequest)
      (exec : AdapterFunc (Gateway F B)) (l : Limiter B) (g : Gateway F B)
      → k ≢ id
      → Leaves (λ x. (exec ctx req x).0)
      → Leaves (λ x. (tb.wait ctx l.inner x).1)
      → Has g
      → IfSome Has (limited_call o tb prefer ctx k req exec l g)
  unfolding limited_call
  limited_call-Has prefer ctx k req exec l g d leaves waits h =
      let (l', g', _) = wait_limiter tb gateway_env ctx l g in
      let h' = wait-Has ctx l g waits h in
      elim (Option-cases (wait_limiter tb gateway_env ctx l g).2) [
        | inl e ↦
            rw (e, limited_call)
              (guarded_call-Has prefer ctx k req exec
                (record g' { limiters = insert k l' g'.limiters }) d leaves h')
        | inr (x, e) ↦ rw (e, limited_call) h'
      ]

  -- A call of another carrier leaves the circuit as it is.
  pub call_carrier-Has :
      (orch : Orchestrator F B) (prefer : Gateway F B → Bool) (ctx : Context (Gateway F B))
      (req : QuoteRequest) (c : Carrier F) (g : Gateway F B)
      → c.id ≢ id
      → ((exec : AdapterFunc (Gateway F B))
          → lookup c.id orch.registry ≡ some exec
          → Leaves (λ x. (exec ctx req x).0))
      → ((l : B) → Leaves (λ x. (tb.wait ctx l x).1))
      → Has g
      → IfSome Has (call_carrier o tb orch prefer ctx req c g)
  unfolding call_carrier
  call_carrier-Has orch prefer ctx req c g d leaves waits h =
      elim (Option-cases (lookup c.id orch.registry)) [
        | inl e ↦ rw (e, call_carrier) h
        | inr (exec, e) ↦ elim (Option-cases (lookup c.id g.limiters)) [
          | inl e' ↦ rw (e, call_carrier) (rw (e', call_carrier) tt)
          | inr (l, e') ↦
              rw (e, call_carrier)
                (rw (e', call_carrier)
                  (limited_call-Has prefer ctx c.id req exec l g d (leaves exec e) (waits l.inner)
                    h))
        ]
      ]
