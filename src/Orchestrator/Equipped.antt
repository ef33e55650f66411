-- ===== src/Orchestrator/Equipped.antt =====
-- orchestrator.go: the carriers that have a breaker, a limiter and a tracker, as New demands of each;
-- for them no call meets a nil pointer.
use carrier_gateway.Prelude.{
  false, refl, ℤ, ◌≡◌, ◌≢◌, sym, ◌∙◌, ap, Text, Bool, Option, none, some, List, [], ◌∷◌, arith, All,
  Bool-cases, Option-cases, ◌||◌, inl, inr,
}
use carrier_gateway.Prelude.Maps.{lookup, insert, lookup-insert}
use carrier_gateway.Domain.{
  Carrier, Context, QuoteRequest, QuoteResult, Error, error_is, canceled, deadline_exceeded,
  Result-cases,
}
use carrier_gateway.Float.{FloatOps}
use carrier_gateway.Breaker.{execute}
use carrier_gateway.Breaker.Keeps.{execute-keeps}
use carrier_gateway.Limiter.{TokenBucket, Limiter, wait_limiter, normalise}
use carrier_gateway.Tracker.{Tracker, record_latency}
use carrier_gateway.Orchestrator.State.{Gateway, gateway_env, AdapterFunc, Orchestrator}
use carrier_gateway.Orchestrator.Call.{
  call_carrier, limited_call, guarded_call, quote_fn, uses_nil, note_failure, note_latency, send,
}

abbrev pub Has : {V : Type 0} → Text → List (Text × V) → Type 0
Has k m = lookup k m ≢ none

abbrev pub Equipped : {F B : Type 0} → Gateway F B → Text → Type 0
Equipped g k = Has k g.breakers × (Has k g.limiters × Has k g.trackers)

-- What a computation that must not meet a nil pointer returns, and what holds of it.
abbrev pub Returns : {A : Type 0} → (A → Type 0) → Option A → Type 0
Returns P none = ⊥
Returns P (some x) = P x

-- The maps are the same.
abbrev pub Same : {F B : Type 0} → Gateway F B → Gateway F B → Type 0
Same g h = (h.breakers ≡ g.breakers) × ((h.limiters ≡ g.limiters) × (h.trackers ≡ g.trackers))

pub insert-Has :
    {V : Type 0} (k j : Text) (v : V) (m : List (Text × V)) → Has j m → Has j (insert k v m)
insert-Has k j v m h e = h (ground (arith, lookup-insert k j v m))

-- A call of a carrier that has a tracker uses no nil one.
pub tracked-uses_nil :
    {F B : Type 0} (o : FloatOps F) (tb : TokenBucket F B (Gateway F B)) (t : Option (Tracker F))
    (r : Option Error)
    → t ≢ none
    → uses_nil o tb t r ≡ false
tracked-uses_nil o tb none r h = absurd (h refl)
tracked-uses_nil o tb (some t) r h = refl

pub Same-Equipped :
    {F B : Type 0} (g h : Gateway F B) (k : Text) → Same g h → Equipped g k → Equipped h k
Same-Equipped g h k s e = (
  (λ x. e.0 (ap (lookup k) (sym s.0) ∙ x)),
  ((λ x. e.1.0 (ap (lookup k) (sym s.1.0) ∙ x)), (λ x. e.1.1 (ap (lookup k) (sym s.1.1) ∙ x))),
)

module _ {F B : Type 0} (o : FloatOps F) (tb : TokenBucket F B (Gateway F B)) (ks : List Text) where
  -- The carriers of the list are equipped.
  abbrev pub Ready : Gateway F B → Type 0
  Ready g = All (Equipped g) ks

  pub Ready-mono :
      (g h : Gateway F B) → ((k : Text) → Equipped g k → Equipped h k) → Ready g → Ready h
  Ready-mono g h f r = mono ks r
    where
      mono : (js : List Text) → All (Equipped g) js → All (Equipped h) js
      mono [] r = tt
      mono (j ∷ js) r = (f j r.0, mono js r.1)

  pub Same-Ready : (g h : Gateway F B) → Same g h → Ready g → Ready h
  Same-Ready g h s = Ready-mono g h (λ k. Same-Equipped g h k s)

  note_latency-Ready :
      (k : Text) (latency : ℤ) (g : Gateway F B) → Ready g → Ready (note_latency o tb k latency g)
  unfolding note_latency record_latency
  note_latency-Ready k latency g h = elim (Option-cases (lookup k g.trackers)) [
    | inl e ↦ rw (e, note_latency) h
    | inr (t, e) ↦
        Ready-mono g (note_latency o tb k latency g)
          (λ j x. rw (e, note_latency) (x.0, (x.1.0, insert-Has k j _ g.trackers x.1.1))) h
  ]

  send-Ready :
      (prefer : Gateway F B → Bool) (ctx : Context (Gateway F B)) (r : QuoteResult)
      (g : Gateway F B)
      → Ready g
      → Ready (send o tb prefer ctx r g)
  unfolding send
  send-Ready prefer ctx r g h = elim (Option-cases (ctx g)) [
    | inl e ↦ rw (e, send) h
    | inr (x, e) ↦ elim (Bool-cases (prefer g)) [
      | inl p ↦ rw (e, send) (rw (p, send) h)
      | inr p ↦ rw (e, send) (rw (p, send) h)
    ]
  ]

  quote_fn-Ready :
      (prefer : Gateway F B → Bool) (ctx : Context (Gateway F B)) (k : Text) (req : QuoteRequest)
      (start : ℤ) (exec : AdapterFunc (Gateway F B))
      → ((g : Gateway F B) → Same g (exec ctx req g).0)
      → (g : Gateway F B) → Ready g
      → Ready (quote_fn o tb prefer ctx k req start exec g).0
  unfolding quote_fn
  quote_fn-Ready prefer ctx k req start exec tame g h =
      let h' = Same-Ready g (exec ctx req g).0 (tame g) h in
      elim (Result-cases (exec ctx req g).1) [
        | inl (r, e) ↦ rw (e, quote_fn) (send-Ready prefer ctx _ _ (note_latency-Ready k _ _ h'))
        | inr (x, e) ↦ rw (e, quote_fn) h'
      ]

  note_failure-Ready :
      (k : Text) (start : ℤ) (r : Option Error) (g : Gateway F B)
      → Ready g
      → Ready (note_failure o tb k start r g)
  unfolding note_failure
  note_failure-Ready k start none g h = h
  note_failure-Ready k start (some e) g h = h

  guarded_call-Ready :
      (prefer : Gateway F B → Bool) (ctx : Context (Gateway F B)) (k : Text) (req : QuoteRequest)
      (exec : AdapterFunc (Gateway F B)) (g : Gateway F B)
      → Equipped g k
      → ((g : Gateway F B) → Same g (exec ctx req g).0)
      → Ready g
      → Returns Ready (guarded_call o tb prefer ctx k req exec g)
  unfolding guarded_call
  guarded_call-Ready prefer ctx k req exec g has tame h =
      elim (Option-cases (lookup k g.breakers)) [
        | inl missing ↦ absurd (has.0 missing)
        | inr (c, found) ↦
            let fn = quote_fn o tb prefer ctx k req g.clock exec in
            let (c', g', r) = execute gateway_env fn c g in
            rw (found, tracked-uses_nil o tb (lookup k g.trackers) r has.1.1, guarded_call)
              (note_failure-Ready k g.clock r (record g' { breakers = insert k c' g'.breakers })
                (Ready-mono g' (record g' { breakers = insert k c' g'.breakers })
                  (λ j x. (insert-Has k j c' g'.breakers x.0, x.1))
                  (execute-keeps gateway_env Ready (λ m w h'. h') fn
                    (quote_fn-Ready prefer ctx k req g.clock exec tame) c g h)))
      ]

  normalise-Ready :
      (k : Text) (w : Gateway F B) (r : Option Error)
      → Ready w
      → Ready (normalise tb gateway_env k w r).0
  unfolding normalise
  normalise-Ready k w none h = h
  normalise-Ready k w (some e) h =
      elim (Bool-cases (error_is e canceled || error_is e deadline_exceeded)) [
        | inl t ↦ rw (t, normalise) h
        | inr t ↦ rw (t, normalise) h
      ]

  -- What holds of the world after the wait holds before it of the limiters that are put back.
  wait-Ready :
      (ctx : Context (Gateway F B)) (l : Limiter B) (g : Gateway F B)
      → Same g (tb.wait ctx l.inner g).1
      → Ready g
      → Ready (wait_limiter tb gateway_env ctx l g).1
  unfolding wait_limiter
  wait-Ready ctx l g tame h =
      normalise-Ready l.carrier_id (tb.wait ctx l.inner g).1 (tb.wait ctx l.inner g).2
        (Same-Ready g (tb.wait ctx l.inner g).1 tame h)

  limited_call-Ready :
      (prefer : Gateway F B → Bool) (ctx : Context (Gateway F B)) (k : Text) (req : QuoteRequest)
      (exec : AdapterFunc (Gateway F B)) (l : Limiter B) (g : Gateway F B)
      → ((h : Gateway F B) → Ready h → Equipped h k)
      → ((h : Gateway F B) → Same h (exec ctx req h).0)
      → Same g (tb.wait ctx l.inner g).1
      → Ready g
      → Returns Ready (limited_call o tb prefer ctx k req exec l g)
  unfolding limited_call
  limited_call-Ready prefer ctx k req exec l g has tame waits h =
      let (l', g', _) = wait_limiter tb gateway_env ctx l g in
      let g'' = record g' { limiters = insert k l' g'.limiters } in
      let h' =
        Ready-mono g' g'' (λ j x. (x.0, (insert-Has k j l' g'.limiters x.1.0, x.1.1)))
          (wait-Ready ctx l g waits h) in
      elim (Option-cases (wait_limiter tb gateway_env ctx l g).2) [
        | inl e ↦
            rw (e, limited_call) (guarded_call-Ready prefer ctx k req exec g'' (has g'' h') tame h')
        | inr (x, e) ↦ rw (e, limited_call) h'
      ]

  -- A call of an equipped carrier returns, and leaves the carriers equipped.
  pub call_carrier-Ready :
      (orch : Orchestrator F B) (prefer : Gateway F B → Bool) (ctx : Context (Gateway F B))
      (req : QuoteRequest) (c : Carrier F) (g : Gateway F B)
      → ((h : Gateway F B) → Ready h → Equipped h c.id)
      → ((exec : AdapterFunc (Gateway F B))
          → lookup c.id orch.registry ≡ some exec
          → (h : Gateway F B) → Same h (exec ctx req h).0)
      → ((l : B) (h : Gateway F B) → Same h (tb.wait ctx l h).1)
      → Ready g
      → Returns Ready (call_carrier o tb orch prefer ctx req c g)
  unfolding call_carrier
  call_carrier-Ready orch prefer ctx req c g has tame waits h =
      elim (Option-cases (lookup c.id orch.registry)) [
        | inl e ↦ rw (e, call_carrier) h
        | inr (exec, e) ↦ elim (Option-cases (lookup c.id g.limiters)) [
          | inl e' ↦ absurd ((has g h).1.0 e')
          | inr (l, e') ↦
              rw (e, call_carrier)
                (rw (e', call_carrier)
                  (limited_call-Ready prefer ctx c.id req exec l g has (tame exec e)
                    (waits l.inner g) h))
        ]
      ]
