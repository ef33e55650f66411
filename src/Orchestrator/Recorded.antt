-- ===== src/Orchestrator/Recorded.antt =====
-- orchestrator.go: callCarrier records one outcome, whatever happens.
use carrier_gateway.Prelude.{
  ℕ, suc, ℤ, pos, ◌-ℤ◌, ◌≡◌, refl, sym, ap, ◌∙◌, Text, bytes, text_eq, text_eq_refl, Bool, Option,
  none, some, List, total, arith, Bool-cases, Option-cases, inl, inr, ◌||◌, if◌then◌else◌,
}
use carrier_gateway.Prelude.Maps.{lookup, insert}
use carrier_gateway.Domain.{
  Carrier, Context, QuoteRequest, QuoteResult, Error, error_is, canceled, deadline_exceeded,
  Result-cases,
}
use carrier_gateway.Float.{FloatOps}
use carrier_gateway.Ports.{
  Metric, record_quote, record_hedge, record_cb_transition, record_rate_limit_rejection,
  record_fan_out_duration, set_cb_state, set_p95_latency,
}
use carrier_gateway.Breaker.{Breaker, execute, emit_transition}
use carrier_gateway.Breaker.Keeps.{execute-Yields}
use carrier_gateway.Limiter.{TokenBucket, Limiter, wait_limiter, normalise}
use carrier_gateway.Tracker.{record_latency}
use carrier_gateway.Orchestrator.State.{Gateway, gateway_env, AdapterFunc, Orchestrator}
use carrier_gateway.Orchestrator.Call.{
  call_carrier, limited_call, guarded_call, classify_error, quote_fn, note_failure, note_latency,
  note_quote, send,
}
use carrier_gateway.Orchestrator.Equipped.{Returns, Equipped, Has, tracked-uses_nil}

-- 1 for a RecordQuote of the carrier.
abbrev pub quotes_of : {F : Type 0} → Text → Metric F → ℕ
quotes_of k (record_quote j latency status) = if text_eq j k then 1 else 0
quotes_of k (record_hedge to from) = 0
quotes_of k (record_cb_transition j from to) = 0
quotes_of k (record_rate_limit_rejection j) = 0
quotes_of k (record_fan_out_duration d) = 0
quotes_of k (set_cb_state j state) = 0
quotes_of k (set_p95_latency j p95) = 0

Returns-map :
    {A : Type 0} (P Q : A → Type 0) (r : Option A)
    → ((x : A) → P x → Q x)
    → Returns P r
    → Returns Q r
Returns-map P Q none f h = h
Returns-map P Q (some x) f h = f x h

module _ {F B : Type 0} (o : FloatOps F) (tb : TokenBucket F B (Gateway F B)) (k : Text) where
  -- How many outcomes of the carrier have been recorded.
  abbrev pub recorded : Gateway F B → ℕ
  recorded g = total (quotes_of k) g.metrics

  -- A call that gave a result has recorded it; one that failed has not yet.
  Noted : ℕ → Gateway F B → Option Error → Type 0
  Noted n g none = recorded g ≡ suc n
  Noted n g (some e) = recorded g ≡ n

  note_quote-recorded :
      (latency : ℤ) (status : Text) (g : Gateway F B)
      → recorded (note_quote o tb k latency status g) ≡ suc (recorded g)
  note_quote-recorded latency status g = ground (arith, text_eq_refl k)

  note_latency-recorded :
      (latency : ℤ) (g : Gateway F B) → recorded (note_latency o tb k latency g) ≡ recorded g
  unfolding note_latency record_latency
  note_latency-recorded latency g = elim (Option-cases (lookup k g.trackers)) [
    | inl e ↦ rw (e, note_latency) refl
    | inr (t, e) ↦ rw (e, note_latency) (omega arith)
  ]

  send-recorded :
      (prefer : Gateway F B → Bool) (ctx : Context (Gateway F B)) (r : QuoteResult)
      (g : Gateway F B)
      → recorded (send o tb prefer ctx r g) ≡ recorded g
  unfolding send
  send-recorded prefer ctx r g = elim (Option-cases (ctx g)) [
    | inl e ↦ rw (e, send) refl
    | inr (x, e) ↦ elim (Bool-cases (prefer g)) [
      | inl p ↦ rw (e, send) (rw (p, send) refl)
      | inr p ↦ rw (e, send) (rw (p, send) refl)
    ]
  ]

  quote_fn-Noted :
      (prefer : Gateway F B → Bool) (ctx : Context (Gateway F B)) (req : QuoteRequest) (start : ℤ)
      (exec : AdapterFunc (Gateway F B)) (n : ℕ)
      → ((g : Gateway F B) → (exec ctx req g).0.metrics ≡ g.metrics)
      → (g : Gateway F B) → recorded g ≡ n
      → Noted n
          (quote_fn o tb prefer ctx k req start exec g).0
          (quote_fn o tb prefer ctx k req start exec g).1
  unfolding quote_fn Noted
  quote_fn-Noted prefer ctx req start exec n quiet g h =
      let h' = ap (total (quotes_of k)) (quiet g) ∙ h in
      let latency = (exec ctx req g).0.clock -ℤ start in
      elim (Result-cases (exec ctx req g).1) [
        | inl (r, e) ↦
            rw (e, quote_fn)
              (send-recorded prefer ctx _ _
                ∙ note_quote-recorded latency (bytes "success")
                    (note_latency o tb k latency (exec ctx req g).0)
                ∙ ap (λ x. suc x) (note_latency-recorded latency (exec ctx req g).0 ∙ h'))
        | inr (x, e) ↦ rw (e, quote_fn) h'
      ]

  note_failure-recorded :
      (start : ℤ) (r : Option Error) (n : ℕ) (g : Gateway F B)
      → Noted n g r
      → recorded (note_failure o tb k start r g) ≡ suc n
  unfolding note_failure Noted
  note_failure-recorded start none n g h = h
  note_failure-recorded start (some e) n g h =
      note_quote-recorded (g.clock -ℤ start) (classify_error e) g ∙ ap (λ x. suc x) h

  emit-Noted :
      (id : Text) (from to : _) (g : Gateway F B) (r : Option Error) (n : ℕ)
      → Noted n g r
      → Noted n (emit_transition gateway_env id from to g) r
  unfolding emit_transition Noted
  emit-Noted id from to g none n h = omega (arith, h)
  emit-Noted id from to g (some e) n h = omega (arith, h)

  Noted-breakers :
      (n : ℕ) (g : Gateway F B) (r : Option Error) (bs : List (Text × Breaker))
      → Noted n g r
      → Noted n (record g { breakers = bs }) r
  unfolding Noted
  Noted-breakers n g none bs h = h
  Noted-breakers n g (some e) bs h = h

  emit-recorded :
      (id : Text) (from to : _) (g : Gateway F B) (n : ℕ)
      → recorded g ≡ n
      → recorded (emit_transition gateway_env id from to g) ≡ n
  unfolding emit_transition
  emit-recorded id from to g n h = omega (arith, h)

  -- One outcome more is recorded.
  abbrev pub RecordsOne : Gateway F B → Gateway F B → Type 0
  RecordsOne g g' = recorded g' ≡ suc (recorded g)

  guarded_call-RecordsOne :
      (prefer : Gateway F B → Bool) (ctx : Context (Gateway F B)) (req : QuoteRequest)
      (exec : AdapterFunc (Gateway F B)) (g : Gateway F B)
      → Has k g.breakers
      → Has k g.trackers
      → ((h : Gateway F B) → (exec ctx req h).0.metrics ≡ h.metrics)
      → Returns (RecordsOne g) (guarded_call o tb prefer ctx k req exec g)
  unfolding guarded_call Noted
  guarded_call-RecordsOne prefer ctx req exec g has tracked quiet =
      elim (Option-cases (lookup k g.breakers)) [
        | inl missing ↦ absurd (has missing)
        | inr (b, found) ↦
            let fn = quote_fn o tb prefer ctx k req g.clock exec in
            let (b', g', r) = execute gateway_env fn b g in
            let n = recorded g in
            rw (found, tracked-uses_nil o tb (lookup k g.trackers) r tracked, guarded_call)
              (note_failure-recorded g.clock r n (record g' { breakers = insert k b' g'.breakers })
                (Noted-breakers n g' r (insert k b' g'.breakers) (
                  execute-Yields gateway_env (λ h. recorded h ≡ n) (Noted n)
                    (λ id from to h e. emit-recorded id from to h n e)
                    (λ id from to h e x. emit-Noted id from to h e n x) (λ h e. e) fn
                    (quote_fn-Noted prefer ctx req g.clock exec n quiet) b g refl)))
      ]

  -- The limiter's bookkeeping: no outcome of the carrier, no other breakers or trackers.
  abbrev Bides : Gateway F B → Gateway F B → Type 0
  Bides g g' =
      (recorded g' ≡ recorded g) × ((g'.breakers ≡ g.breakers) × (g'.trackers ≡ g.trackers))

  normalise-Bides :
      (id : Text) (g g' : Gateway F B) (r : Option Error)
      → Bides g g'
      → Bides g (normalise tb gateway_env id g' r).0
  unfolding normalise
  normalise-Bides id g g' none h = h
  normalise-Bides id g g' (some e) h =
      elim (Bool-cases (error_is e canceled || error_is e deadline_exceeded)) [
        | inl t ↦ rw (t, normalise) (omega (arith, h.0), h.1)
        | inr t ↦ rw (t, normalise) h
      ]

  -- The token bucket leaves the breakers, the trackers and the metrics alone.
  abbrev pub IsAside : Gateway F B → Gateway F B → Type 0
  IsAside g g' =
      (g'.metrics ≡ g.metrics) × ((g'.breakers ≡ g.breakers) × (g'.trackers ≡ g.trackers))

  wait-Bides :
      (ctx : Context (Gateway F B)) (l : Limiter B) (g : Gateway F B)
      → IsAside g (tb.wait ctx l.inner g).1
      → Bides g (wait_limiter tb gateway_env ctx l g).1
  unfolding wait_limiter
  wait-Bides ctx l g h =
      normalise-Bides l.carrier_id g (tb.wait ctx l.inner g).1 (tb.wait ctx l.inner g).2
        (ap (total (quotes_of k)) h.0, h.1)

  limited_call-RecordsOne :
      (prefer : Gateway F B → Bool) (ctx : Context (Gateway F B)) (req : QuoteRequest)
      (exec : AdapterFunc (Gateway F B)) (l : Limiter B) (g : Gateway F B)
      → Has k g.breakers
      → Has k g.trackers
      → ((h : Gateway F B) → (exec ctx req h).0.metrics ≡ h.metrics)
      → IsAside g (tb.wait ctx l.inner g).1
      → Returns (RecordsOne g) (limited_call o tb prefer ctx k req exec l g)
  unfolding limited_call
  limited_call-RecordsOne prefer ctx req exec l g has tracked quiet aside =
      let (l', g', _) = wait_limiter tb gateway_env ctx l g in
      let g'' = record g' { limiters = insert k l' g'.limiters } in
      let bides = wait-Bides ctx l g aside in
      elim (Option-cases (wait_limiter tb gateway_env ctx l g).2) [
        | inl e ↦
            rw (e, limited_call)
              (Returns-map (RecordsOne g'') (RecordsOne g)
                (guarded_call o tb prefer ctx k req exec g'') (λ h x. x ∙ ap (λ n. suc n) bides.0)
                (guarded_call-RecordsOne prefer ctx req exec g''
                  (λ x. has (ap (lookup k) (sym bides.1.0) ∙ x))
                  (λ x. tracked (ap (lookup k) (sym bides.1.1) ∙ x)) quiet))
        | inr (x, e) ↦
            rw (e, limited_call)
              (note_quote-recorded (pos 0) (bytes "rate_limited") g'' ∙ ap (λ n. suc n) bides.0)
      ]

-- A call of a carrier that has an adapter, a breaker, a limiter and a tracker returns, and records
-- exactly one outcome of that carrier, whether the limiter, the breaker or the adapter fails or none
-- does; if adapter and token bucket record nothing themselves and the bucket leaves the breakers and
-- the trackers alone.
pub call_carrier-RecordsOne :
    {F B : Type 0} (o : FloatOps F) (tb : TokenBucket F B (Gateway F B)) (orch : Orchestrator F B)
    (prefer : Gateway F B → Bool) (ctx : Context (Gateway F B)) (req : QuoteRequest) (c : Carrier F)
    (exec : AdapterFunc (Gateway F B)) (g : Gateway F B)
    → lookup c.id orch.registry ≡ some exec
    → Equipped g c.id
    → ((h : Gateway F B) → (exec ctx req h).0.metrics ≡ h.metrics)
    → ((l : B) → IsAside o tb c.id g (tb.wait ctx l g).1)
    → Returns (RecordsOne o tb c.id g) (call_carrier o tb orch prefer ctx req c g)
unfolding call_carrier
call_carrier-RecordsOne o tb orch prefer ctx req c exec g known has quiet aside =
    elim (Option-cases (lookup c.id g.limiters)) [
      | inl missing ↦ absurd (has.1.0 missing)
      | inr (l, found) ↦
          rw (known, found, call_carrier)
            (limited_call-RecordsOne o tb c.id prefer ctx req exec l g has.0 has.1.1 quiet
              (aside l.inner))
    ]
