-- ===== src/Orchestrator/Launch.antt =====
-- orchestrator.go, fanOut: the primary calls, the hedge monitor and its goroutines. They interleave at
-- the granularity of whole calls: a `Schedule` says which primary calls run before the hedge monitor
-- wakes and which after the hedges have delivered.
use carrier_gateway.Prelude.{
  Text, Bool, false, Option, none, some, List, [], ◌∷◌, ◌++◌, reverse, if◌then◌else◌,
}
use carrier_gateway.Prelude.Maps.{lookup, insert}
use carrier_gateway.Domain.{Carrier, Context, QuoteRequest, canceled}
use carrier_gateway.Float.{FloatOps}
use carrier_gateway.Ports.{CbState, cb_closed}
use carrier_gateway.Limiter.{TokenBucket, try_acquire}
use carrier_gateway.Tracker.{hedge_threshold}
use carrier_gateway.Hedging.{HedgeCarrier, Pending, Fired, hedge_monitor, deliver_hedge}
use carrier_gateway.Orchestrator.State.{Gateway, gateway_env, Orchestrator}
use carrier_gateway.Orchestrator.Call.{call_carrier}

-- Which calls of a fan-out run when, in which states the primary calls count as ended, and how the
-- ties of its `select`s go: `sent` says it for each hedge.
pub record Schedule (F B : Type 0) : Type 0 where
  pub early : List (Carrier F) → List (Carrier F)
  pub late : List (Carrier F) → List (Carrier F)
  pub wakes : List (Option (Gateway F B → Gateway F B))
  pub prefer : Gateway F B → Bool
  pub drained : Gateway F B → Bool
  pub sent : Fired → Bool

-- `hedgeCtx`, which is done with the context of the fan-out, and cancelled once the primary calls have
-- ended: `drained` tells in which states that is so.
abbrev pub hedge_context :
    {F B : Type 0} → (Gateway F B → Bool) → Context (Gateway F B) → Context (Gateway F B)
hedge_context drained ctx g = elim (ctx g) [
  | some e ↦ some e
  | none ↦ if drained g then some canceled else none
]

module _ {F B : Type 0} (o : FloatOps F) (tb : TokenBucket F B (Gateway F B)) where
  -- `limiter.TryAcquire` and `breaker.State`, as the closures that a hedge candidate carries. Every
  -- carrier has a limiter and a breaker, as New demands; the answers without one are never read.
  unfoldable pub acquire_token : Text → Gateway F B → Gateway F B × Bool
  acquire_token id g = elim (lookup id g.limiters) [
    | none ↦ (g, false)
    | some l ↦
        let (l', got) = try_acquire tb gateway_env l g in
        (record g { limiters = insert id l' g.limiters }, got)
  ]

  unfoldable pub breaker_state : Text → Gateway F B → CbState
  breaker_state id g = elim (lookup id g.breakers) [ none ↦ cb_closed | some b ↦ b.state ]

  -- The candidates for hedging: the eligible carriers that have an adapter.
  unfoldable pub hedgeable :
      Orchestrator F B → Gateway F B → List (Carrier F) → List (HedgeCarrier F (Gateway F B))
  unfolding acquire_token breaker_state
  hedgeable orch g [] = []
  hedgeable orch g (c ∷ cs) =
      let rest = hedgeable orch g cs in
      elim (lookup c.id orch.registry) [
        | none ↦ rest
        | some exec ↦ elim (lookup c.id g.trackers) [
          | none ↦ rest
          | some t ↦
              record {
                carrier = c;
                p95_ms = t.state.p95;
                try_acquire = acquire_token c.id;
                cb_state = breaker_state c.id;
              }
              ∷ rest
        ]
      ]

  unfoldable pub pending_carriers :
      Gateway F B → List (Carrier F) → Option (List (Text × Pending F))
  pending_carriers g [] = some []
  pending_carriers g (c ∷ cs) = elim (lookup c.id g.trackers) [
    | none ↦ none
    | some t ↦ elim (pending_carriers g cs) [
      | none ↦ none
      | some ps ↦
          some ((c.id, record { start_time = g.clock; hedge_threshold = hedge_threshold o t }) ∷ ps)
    ]
  ]

  -- Primary calls, one after the other; `none` is a nil dereference.
  unfoldable pub call_all :
      Orchestrator F B
      → (Gateway F B → Bool)
      → Context (Gateway F B)
      → QuoteRequest
      → List (Carrier F)
      → Gateway F B
      → Option (Gateway F B)
  call_all orch prefer ctx req [] g = some g
  call_all orch prefer ctx req (c ∷ cs) g = elim (call_carrier o tb orch prefer ctx req c g) [
    | none ↦ none
    | some g' ↦ call_all orch prefer ctx req cs g'
  ]

  -- The hedge goroutines: each calls its candidate's adapter, past limiter and breaker.
  unfoldable pub deliver_all :
      Orchestrator F B
      → (Fired → Bool)
      → Context (Gateway F B)
      → QuoteRequest
      → List Fired
      → Gateway F B
      → Gateway F B
  deliver_all orch sent ctx req [] g = g
  deliver_all orch sent ctx req (f ∷ fs) g = elim (lookup f.candidate orch.registry) [
    | none ↦ deliver_all orch sent ctx req fs g
    | some exec ↦
        let (g', r) = exec ctx req g in
        deliver_all orch sent ctx req fs (elim (deliver_hedge (sent f) r) [
          | none ↦ g'
          | some result ↦ record g' { channel = g'.channel ++ result ∷ [] }
        ])
  ]

  -- The monitor over its wakes, then the goroutines that it fired, in the order of firing.
  unfoldable pub hedge_all :
      Orchestrator F B
      → Schedule F B
      → Context (Gateway F B)
      → QuoteRequest
      → List (Carrier F)
      → List (Text × Pending F)
      → Gateway F B
      → Gateway F B
  unfolding deliver_all hedgeable
  hedge_all orch sched ctx req eligible pending g =
      let m =
        hedge_monitor o gateway_env (hedgeable orch g eligible) pending sched.wakes
          (record { already_hedged = []; fired = []; world = g }) in
      deliver_all orch sched.sent (hedge_context sched.drained ctx) req (reverse m.fired) m.world

  -- From the start of the hedge monitor to the end of the last call.
  unfoldable pub run_calls :
      Orchestrator F B
      → Schedule F B
      → Context (Gateway F B)
      → QuoteRequest
      → List (Carrier F)
      → Gateway F B
      → Option (Gateway F B)
  unfolding hedge_all call_all pending_carriers
  run_calls orch sched ctx req eligible g = elim (pending_carriers g eligible) [
    | none ↦ none
    | some pending ↦ elim (call_all orch sched.prefer ctx req (sched.early eligible) g) [
      | none ↦ none
      | some g' ↦
          call_all orch sched.prefer ctx req (sched.late eligible)
            (hedge_all orch sched ctx req eligible pending g')
    ]
  ]
