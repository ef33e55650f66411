-- ===== src/Orchestrator/Forever.antt =====
-- orchestrator.go: what a fan-out does to a circuit that is open when it starts.
use carrier_gateway.Prelude.{
  ◌≡◌, ◌≢◌, ◌∙◌, ap, Text, Option, none, some, List, [], ◌∷◌, All, Bool-cases, Option-cases, inl,
  inr, is_empty,
}
use carrier_gateway.Prelude.Maps.{lookup}
use carrier_gateway.Domain.{Carrier, Context, QuoteRequest, QuoteResult, Result}
use carrier_gateway.Float.{FloatOps}
use carrier_gateway.Ports.{cb_open}
use carrier_gateway.Breaker.{Breaker}
use carrier_gateway.Limiter.{TokenBucket}
use carrier_gateway.Hedging.Keeps.{IfSome}
use carrier_gateway.Orchestrator.State.{Gateway, Orchestrator, with_timeout}
use carrier_gateway.Orchestrator.Lockout.{Has, Leaves, Leaves-Has}
use carrier_gateway.Orchestrator.Eligible.{scoped_key}
use carrier_gateway.Orchestrator.Launch.{Schedule, run_calls}
use carrier_gateway.Orchestrator.Quotes.{save_quotes, finish, fan_over, fan_out, request_timeout}
use carrier_gateway.Orchestrator.Contained.{Contained, All-filter}
use carrier_gateway.Orchestrator.Calls.{run_calls-Holds}

module _ {F B : Type 0} (o : FloatOps F) (tb : TokenBucket F B (Gateway F B)) (id : Text)
    (b : Breaker) (orch : Orchestrator F B) (sched : Schedule F B)
    (con : Contained tb orch sched) where
  -- The circuit of the carrier is still what it was.
  abbrev Holds : Gateway F B → Type 0
  Holds = Has o tb id b

  save_quotes-Holds :
      (req : QuoteRequest) (qs : List QuoteResult) (g : Gateway F B)
      → Holds g
      → Holds (save_quotes o tb orch req qs g)
  unfolding save_quotes
  save_quotes-Holds req [] g h = h
  save_quotes-Holds req (q ∷ qs) g h = elim (Option-cases orch.repo) [
    | inl e ↦ rw (e, save_quotes) h
    | inr (repo, e) ↦ elim (Bool-cases (is_empty req.request_id)) [
      | inl anonymous ↦ rw (e, save_quotes) (rw anonymous h)
      | inr named ↦
          rw (e, save_quotes)
            (rw named (
              Leaves-Has o tb id b (λ x. (repo.save (scoped_key req) (q ∷ qs) x).0)
                (con.saves repo e (scoped_key req) (q ∷ qs)) g h))
    ]
  ]

  fan_over-Holds :
      (ctx : Context (Gateway F B)) (req : QuoteRequest) (eligible : List (Carrier F))
      (g : Gateway F B)
      → All (λ c. c.id ≢ id) eligible
      → Holds g
      → IfSome (λ r. Holds r.0) (fan_over o tb orch sched ctx req eligible g)
  unfolding fan_over finish
  fan_over-Holds ctx req [] g d h = h
  fan_over-Holds ctx req (c ∷ cs) g d h =
      finished
        (run_calls o tb orch sched (with_timeout ctx g.clock (request_timeout o tb req)) req
          (c ∷ cs) (record g { channel = [] }))
        (run_calls-Holds o tb id b orch sched con _ req (c ∷ cs) (record g { channel = [] }) d h)
    where
      finished :
          (r : Option (Gateway F B))
          → IfSome Holds r
          → IfSome
              (λ q. Holds q.0)
              (elim r as (λ _. Option (Gateway F B × Result (List QuoteResult))) [
                | none ↦ none
                | some g' ↦ some (finish o tb orch req g.clock g')
              ])
      finished none hr = tt
      finished (some g') hr = save_quotes-Holds req _ g' hr

  -- A fan-out does not change a circuit that is open when the fan-out starts, however long ago it
  -- opened, if the code that it calls leaves the breakers alone and it does not dereference nil: the
  -- carrier is filtered out, and no code that is run for others reaches its breaker.
  pub open-fan_out :
      (ctx : Context (Gateway F B)) (req : QuoteRequest) (g : Gateway F B)
      → b.state ≡ cb_open
      → lookup id g.breakers ≡ some b
      → IfSome (λ r. lookup id r.0.breakers ≡ some b) (fan_out o tb orch sched ctx req g)
  unfolding fan_out
  open-fan_out ctx req g e h =
      fan_over-Holds ctx req _ g (All-filter id b g.breakers req.coverage_lines orch.carriers h e) h

-- A request that is served: its schedule and context, and what happens before it arrives.
pub record Job (F B : Type 0) : Type 0 where
  pub sched : Schedule F B
  pub ctx : Context (Gateway F B)
  pub req : QuoteRequest
  pub pause : Gateway F B → Gateway F B

module _ {F B : Type 0} (o : FloatOps F) (tb : TokenBucket F B (Gateway F B))
    (orch : Orchestrator F B) where
  -- Fan-outs one after the other.
  abbrev pub serve : List (Job F B) → Gateway F B → Option (Gateway F B)
  serve [] g = some g
  serve (j ∷ js) g = elim (fan_out o tb orch j.sched j.ctx j.req (j.pause g)) [
    | none ↦ none
    | some (g', _) ↦ serve js g'
  ]

  -- The jobs do not reach into the circuit breakers, nor does what happens between them.
  abbrev pub AllContained : List (Job F B) → Type 0
  AllContained = All (λ j. Contained tb orch j.sched × Leaves j.pause)

  -- A circuit that is open while no request is in progress is still open, with the same opening time,
  -- after every later sequence of fan-outs that do not overlap, whatever time passes between them,
  -- if the code that they call leaves the breakers alone and no fan-out dereferences nil: OpenTimeout
  -- is never acted on.
  pub open_forever :
      (id : Text) (b : Breaker) (js : List (Job F B)) (g : Gateway F B)
      → AllContained js
      → b.state ≡ cb_open
      → lookup id g.breakers ≡ some b
      → IfSome (λ g'. lookup id g'.breakers ≡ some b) (serve js g)
  open_forever id b [] g con e h = h
  open_forever id b (j ∷ js) g con e h =
      served (fan_out o tb orch j.sched j.ctx j.req (j.pause g))
        (open-fan_out o tb id b orch j.sched con.0.0 j.ctx j.req (j.pause g) e
          (ap (lookup id) (con.0.1 g) ∙ h))
        (λ g' h'. open_forever id b js g' con.1 e h')
    where
      served :
          (r : Option (Gateway F B × Result (List QuoteResult)))
          → IfSome (λ q. lookup id q.0.breakers ≡ some b) r
          → ((g' : Gateway F B)
              → lookup id g'.breakers ≡ some b
              → IfSome (λ x. lookup id x.breakers ≡ some b) (serve js g'))
          → IfSome
              (λ x. lookup id x.breakers ≡ some b)
              (elim r as (λ _. Option (Gateway F B)) [ none ↦ none | some (g', _) ↦ serve js g' ])
      served none hr rec = tt
      served (some (g', _)) hr rec = rec g' hr
