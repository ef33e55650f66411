-- ===== src/Orchestrator/Channel.antt =====
-- orchestrator.go: what the calls of a fan-out send on the results channel.
use carrier_gateway.Prelude.{
  ℕ, suc, ◌≤◌, ℤ, ◌-ℤ◌, ◌≡◌, refl, ◌∙◌, Text, Bool, Option, none, some, [], ◌∷◌, ◌++◌, All,
  All-append, length, length-append, Bool-cases, Option-cases, inl, inr, ◌||◌, arith,
}
use carrier_gateway.Prelude.Maps.{lookup, insert}
use carrier_gateway.Domain.{
  Carrier, Context, QuoteRequest, QuoteResult, Error, ok, error_is, canceled, deadline_exceeded,
  Result-cases,
}
use carrier_gateway.Float.{FloatOps}
use carrier_gateway.Breaker.{execute, emit_transition}
use carrier_gateway.Breaker.Keeps.{execute-Yields}
use carrier_gateway.Limiter.{TokenBucket, Limiter, wait_limiter, normalise}
use carrier_gateway.Tracker.{record_latency}
use carrier_gateway.Hedging.Keeps.{IfSome, IfSome-unless}
use carrier_gateway.Orchestrator.State.{Gateway, gateway_env, AdapterFunc, Orchestrator}
use carrier_gateway.Orchestrator.Call.{
  call_carrier, limited_call, guarded_call, quote_fn, uses_nil, note_failure, note_latency, send,
}

-- A result as callCarrier sends it.
abbrev pub stamped : QuoteResult → Text → ℤ → QuoteResult
stamped r id latency = record r { request_id = id; latency = latency }

module _ {F B : Type 0} (o : FloatOps F) (tb : TokenBucket F B (Gateway F B))
    (R : QuoteResult → Type 0) where
  -- At most `n` results have been sent, all of them good.
  abbrev pub Holds : ℕ → Gateway F B → Type 0
  Holds n g = (length g.channel ≤ n) × All R g.channel

  -- An adapter that leaves the channel alone, and whose results are good.
  pub record Supplies (exec : AdapterFunc (Gateway F B)) (ctx : Context (Gateway F B))
      (req : QuoteRequest) : Type 0 where
    pub quiet : (g : Gateway F B) → (exec ctx req g).0.channel ≡ g.channel
    pub good :
        (g : Gateway F B) (r : QuoteResult)
        → (exec ctx req g).1 ≡ ok r
        → (id : Text) (latency : ℤ) → R (stamped r id latency)

  pub Holds-same : (n : ℕ) (g h : Gateway F B) → h.channel ≡ g.channel → Holds n g → Holds n h
  Holds-same n g h e x = rw e x

  pub Holds-more : (n : ℕ) (g : Gateway F B) → Holds n g → Holds (suc n) g
  Holds-more n g x = (omega (arith, x.0), x.1)

  -- One result more.
  pub Holds-append :
      (n : ℕ) (r : QuoteResult) (g : Gateway F B)
      → R r
      → Holds n g
      → Holds (suc n) (record g { channel = g.channel ++ r ∷ [] })
  Holds-append n r g good x = (
    omega (arith, length-append g.channel (r ∷ []), x.0),
    All-append R g.channel (r ∷ []) x.1 (good, tt),
  )

  note_latency-channel :
      (k : Text) (latency : ℤ) (g : Gateway F B)
      → (note_latency o tb k latency g).channel ≡ g.channel
  unfolding note_latency record_latency
  note_latency-channel k latency g = elim (Option-cases (lookup k g.trackers)) [
    | inl e ↦ rw (e, note_latency) refl
    | inr (t, e) ↦ rw (e, note_latency) refl
  ]

  send-Holds :
      (prefer : Gateway F B → Bool) (ctx : Context (Gateway F B)) (n : ℕ) (r : QuoteResult)
      (g : Gateway F B)
      → R r
      → Holds n g
      → Holds (suc n) (send o tb prefer ctx r g)
  unfolding send
  send-Holds prefer ctx n r g good x = elim (Option-cases (ctx g)) [
    | inl e ↦ rw (e, send) (Holds-append n r g good x)
    | inr (y, e) ↦ elim (Bool-cases (prefer g)) [
      | inl p ↦ rw (e, send) (rw (p, send) (Holds-append n r g good x))
      | inr p ↦ rw (e, send) (rw (p, send) (Holds-more n g x))
    ]
  ]

  module _ (prefer : Gateway F B → Bool) (ctx : Context (Gateway F B)) (k : Text)
      (req : QuoteRequest) (exec : AdapterFunc (Gateway F B)) (supplies : Supplies exec ctx req)
      (n : ℕ) where
    quote_fn-Holds :
        (start : ℤ) (g : Gateway F B)
        → Holds n g
        → Holds (suc n) (quote_fn o tb prefer ctx k req start exec g).0
    unfolding quote_fn
    quote_fn-Holds start g x =
        let g' = (exec ctx req g).0 in
        let x' = Holds-same n g g' (supplies.quiet g) x in
        elim (Result-cases (exec ctx req g).1) [
          | inl (r, e) ↦
              rw (e, quote_fn)
                (send-Holds prefer ctx n (stamped r req.request_id (g'.clock -ℤ start)) _
                  (supplies.good g r e req.request_id (g'.clock -ℤ start))
                  (Holds-same n g' (note_latency o tb k (g'.clock -ℤ start) g')
                    (note_latency-channel k (g'.clock -ℤ start) g') x'))
          | inr (y, e) ↦ rw (e, quote_fn) (Holds-more n g' x')
        ]

    note_failure-Holds :
        (m : ℕ) (start : ℤ) (r : Option Error) (g : Gateway F B)
        → Holds m g
        → Holds m (note_failure o tb k start r g)
    unfolding note_failure
    note_failure-Holds m start none g x = x
    note_failure-Holds m start (some e) g x = x

    guarded_call-Holds :
        (g : Gateway F B)
        → Holds n g
        → IfSome (Holds (suc n)) (guarded_call o tb prefer ctx k req exec g)
    unfolding guarded_call emit_transition
    guarded_call-Holds g x = elim (Option-cases (lookup k g.breakers)) [
      | inl missing ↦ rw (missing, guarded_call) tt
      | inr (b, found) ↦
          let fn = quote_fn o tb prefer ctx k req g.clock exec in
          let (b', g', r) = execute gateway_env fn b g in
          rw (found, guarded_call)
            (IfSome-unless (Holds (suc n)) (uses_nil o tb (lookup k g.trackers) r) _ (
              note_failure-Holds (suc n) g.clock r
                (record g' { breakers = insert k b' g'.breakers })
                (execute-Yields gateway_env (Holds n) (λ h e. Holds (suc n) h) (λ id from to h y. y)
                  (λ id from to h e y. y) (λ h y. Holds-more n h y) fn (quote_fn-Holds g.clock) b g
                  x)))
    ]

    normalise-channel :
        (id : Text) (g : Gateway F B) (r : Option Error)
        → (normalise tb gateway_env id g r).0.channel ≡ g.channel
    unfolding normalise
    normalise-channel id g none = refl
    normalise-channel id g (some e) =
        elim (Bool-cases (error_is e canceled || error_is e deadline_exceeded)) [
          | inl t ↦ rw (t, normalise) refl
          | inr t ↦ rw (t, normalise) refl
        ]

    wait-channel :
        (l : Limiter B) (g : Gateway F B)
        → (tb.wait ctx l.inner g).1.channel ≡ g.channel
        → (wait_limiter tb gateway_env ctx l g).1.channel ≡ g.channel
    unfolding wait_limiter
    wait-channel l g waits =
        normalise-channel l.carrier_id (tb.wait ctx l.inner g).1 (tb.wait ctx l.inner g).2 ∙ waits

    limited_call-Holds :
        (l : Limiter B) (g : Gateway F B)
        → (tb.wait ctx l.inner g).1.channel ≡ g.channel
        → Holds n g
        → IfSome (Holds (suc n)) (limited_call o tb prefer ctx k req exec l g)
    unfolding limited_call
    limited_call-Holds l g waits x =
        let (l', g', _) = wait_limiter tb gateway_env ctx l g in
        let g'' = record g' { limiters = insert k l' g'.limiters } in
        let x' = Holds-same n g g'' (wait-channel l g waits) x in
        elim (Option-cases (wait_limiter tb gateway_env ctx l g).2) [
          | inl e ↦ rw (e, limited_call) (guarded_call-Holds g'' x')
          | inr (y, e) ↦ rw (e, limited_call) (Holds-more n g'' x')
        ]

  -- A call sends one result at most.
  pub call_carrier-Holds :
      (orch : Orchestrator F B) (prefer : Gateway F B → Bool) (ctx : Context (Gateway F B))
      (req : QuoteRequest) (c : Carrier F) (n : ℕ) (g : Gateway F B)
      → ((exec : AdapterFunc (Gateway F B))
          → lookup c.id orch.registry ≡ some exec
          → Supplies exec ctx req)
      → ((l : B) → (tb.wait ctx l g).1.channel ≡ g.channel)
      → Holds n g
      → IfSome (Holds (suc n)) (call_carrier o tb orch prefer ctx req c g)
  unfolding call_carrier
  call_carrier-Holds orch prefer ctx req c n g supplies waits x =
      elim (Option-cases (lookup c.id orch.registry)) [
        | inl e ↦ rw (e, call_carrier) (Holds-more n g x)
        | inr (exec, e) ↦ elim (Option-cases (lookup c.id g.limiters)) [
          | inl e' ↦ rw (e, call_carrier) (rw (e', call_carrier) tt)
          | inr (l, e') ↦
              rw (e, call_carrier)
                (rw (e', call_carrier)
                  (limited_call-Holds prefer ctx c.id req exec (supplies exec e) n l g
                    (waits l.inner) x))
        ]
      ]
