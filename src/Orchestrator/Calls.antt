-- ===== src/Orchestrator/Calls.antt =====
-- orchestrator.go: the calls of a fan-out, primary and hedged, and a circuit that none of them is for.
use carrier_gateway.Prelude.{
  All-perm, ◌≡◌, ◌≢◌, refl, Text, Option, none, some, List, [], ◌∷◌, All, Option-cases, inl, inr,
}
use carrier_gateway.Prelude.Maps.{lookup}
use carrier_gateway.Domain.{Carrier, Context, QuoteRequest}
use carrier_gateway.Float.{FloatOps}
use carrier_gateway.Breaker.{Breaker}
use carrier_gateway.Limiter.{TokenBucket}
use carrier_gateway.Hedging.{Fired, deliver_hedge, HedgeCarrier, Pending}
use carrier_gateway.Hedging.Keeps.{IfSome, monitor-keeps}
use carrier_gateway.Orchestrator.State.{Gateway, gateway_env, Orchestrator}
use carrier_gateway.Orchestrator.Call.{call_carrier}
use carrier_gateway.Orchestrator.Lockout.{Has, Leaves, Leaves-Has, call_carrier-Has}
use carrier_gateway.Orchestrator.Launch.{
  Schedule, acquire_token, hedgeable, pending_carriers, call_all, deliver_all, hedge_context,
  hedge_all, run_calls,
}
use carrier_gateway.Orchestrator.Contained.{Contained, All-split}

module _ {F B : Type 0} (o : FloatOps F) (tb : TokenBucket F B (Gateway F B)) (id : Text)
    (b : Breaker) (orch : Orchestrator F B) (sched : Schedule F B)
    (con : Contained tb orch sched) where
  -- The circuit of the carrier is still what it was.
  abbrev Holds : Gateway F B → Type 0
  Holds = Has o tb id b

  call_all-Holds :
      (ctx : Context (Gateway F B)) (req : QuoteRequest) (cs : List (Carrier F)) (g : Gateway F B)
      → All (λ c. c.id ≢ id) cs
      → Holds g
      → IfSome Holds (call_all o tb orch sched.prefer ctx req cs g)
  unfolding call_all
  call_all-Holds ctx req [] g d h = h
  call_all-Holds ctx req (c ∷ cs) g d h =
      next (call_carrier o tb orch sched.prefer ctx req c g)
        (call_carrier-Has o tb id b orch sched.prefer ctx req c g d.0
          (λ exec e. con.adapters c.id exec e ctx req) (con.waits ctx) h)
        (λ g' h'. call_all-Holds ctx req cs g' d.1 h')
    where
      next :
          (r : Option (Gateway F B))
          → IfSome Holds r
          → ((g' : Gateway F B)
              → Holds g'
              → IfSome Holds (call_all o tb orch sched.prefer ctx req cs g'))
          → IfSome Holds (elim r as (λ _. Option (Gateway F B)) [
            | none ↦ none
            | some g' ↦ call_all o tb orch sched.prefer ctx req cs g'
          ])
      next none hr rec = tt
      next (some g') hr rec = rec g' hr

  deliver_all-Holds :
      (ctx : Context (Gateway F B)) (req : QuoteRequest) (fs : List Fired) (g : Gateway F B)
      → Holds g
      → Holds (deliver_all o tb orch sched.sent ctx req fs g)
  unfolding deliver_all
  deliver_all-Holds ctx req [] g h = h
  deliver_all-Holds ctx req (f ∷ fs) g h = elim (Option-cases (lookup f.candidate orch.registry)) [
    | inl e ↦ rw (e, deliver_all) (deliver_all-Holds ctx req fs g h)
    | inr (exec, e) ↦
        let h' =
          Leaves-Has o tb id b (λ x. (exec ctx req x).0) (con.adapters f.candidate exec e ctx req) g
            h in
        elim (Option-cases (deliver_hedge (sched.sent f) (exec ctx req g).1)) [
          | inl none_sent ↦
              rw (e, deliver_all) (rw (none_sent, deliver_all) (deliver_all-Holds ctx req fs _ h'))
          | inr (r, was_sent) ↦
              rw (e, deliver_all) (rw (was_sent, deliver_all) (deliver_all-Holds ctx req fs _ h'))
        ]
  ]

  acquire-Holds : (k : Text) (w : Gateway F B) → Holds w → Holds (acquire_token o tb k w).0
  unfolding acquire_token
  acquire-Holds k w h = elim (Option-cases (lookup k w.limiters)) [
    | inl e ↦ rw (e, acquire_token) h
    | inr (l, e) ↦ rw (e, acquire_token) h
  ]

  acquires-Holds :
      (g : Gateway F B) (cs : List (Carrier F))
      → All
          (λ (c : HedgeCarrier F (Gateway F B)).
            (w : Gateway F B) → Holds w → Holds (c.try_acquire w).0)
          (hedgeable o tb orch g cs)
  unfolding hedgeable
  acquires-Holds g [] = tt
  acquires-Holds g (c ∷ cs) = elim (Option-cases (lookup c.id orch.registry)) [
    | inl e ↦ rw (e, hedgeable) (acquires-Holds g cs)
    | inr (exec, e) ↦ elim (Option-cases (lookup c.id g.trackers)) [
      | inl e' ↦ rw (e, hedgeable) (rw (e', hedgeable) (acquires-Holds g cs))
      | inr (t, e') ↦
          rw (e, hedgeable)
            (rw (e', hedgeable) ((λ w h. acquire-Holds c.id w h), acquires-Holds g cs))
    ]
  ]

  wakes-Holds :
      (ws : List (Option (Gateway F B → Gateway F B)))
      → All (λ w. (f : Gateway F B → Gateway F B) → w ≡ some f → Leaves f) ws
      → All (λ w. IfSome (λ f. (g : Gateway F B) → Holds g → Holds (f g)) w) ws
  wakes-Holds [] h = tt
  wakes-Holds (none ∷ ws) h = (tt, wakes-Holds ws h.1)
  wakes-Holds (some f ∷ ws) h =
      ((λ g k. Leaves-Has o tb id b f (h.0 f refl) g k), wakes-Holds ws h.1)

  hedge_all-Holds :
      (ctx : Context (Gateway F B)) (req : QuoteRequest) (eligible : List (Carrier F))
      (pending : List (Text × Pending F)) (g : Gateway F B)
      → Holds g
      → Holds (hedge_all o tb orch sched ctx req eligible pending g)
  unfolding hedge_all
  hedge_all-Holds ctx req eligible pending g h =
      deliver_all-Holds (hedge_context sched.drained ctx) req _ _ (
        monitor-keeps o gateway_env (hedgeable o tb orch g eligible) Holds (λ m w k. k)
          (acquires-Holds g eligible) pending sched.wakes
          (record { already_hedged = []; fired = []; world = g })
          (wakes-Holds sched.wakes con.wakings) h)

  pub run_calls-Holds :
      (ctx : Context (Gateway F B)) (req : QuoteRequest) (eligible : List (Carrier F))
      (g : Gateway F B)
      → All (λ c. c.id ≢ id) eligible
      → Holds g
      → IfSome Holds (run_calls o tb orch sched ctx req eligible g)
  unfolding run_calls
  run_calls-Holds ctx req eligible g d h = elim (Option-cases (pending_carriers o tb g eligible)) [
    | inl e ↦ rw (e, run_calls) tt
    | inr (pending, e) ↦
        rw (e, run_calls)
          (then_late (call_all o tb orch sched.prefer ctx req (sched.early eligible) g)
            (call_all-Holds ctx req (sched.early eligible) g parts.0 h) pending)
  ]
    where
      parts :
          All (λ (c : Carrier F). c.id ≢ id) (sched.early eligible)
          × All (λ (c : Carrier F). c.id ≢ id) (sched.late eligible)
      parts =
          All-split _ (sched.early eligible) (sched.late eligible)
            (All-perm _ (con.order eligible) d)

      then_late :
          (r : Option (Gateway F B))
          → IfSome Holds r
          → (pending : List (Text × Pending F))
          → IfSome Holds (elim r as (λ _. Option (Gateway F B)) [
            | none ↦ none
            | some g' ↦
                call_all o tb orch sched.prefer ctx req
                  (sched.late eligible)
                  (hedge_all o tb orch sched ctx req eligible pending g')
          ])
      then_late none hr pending = tt
      then_late (some g') hr pending =
          call_all-Holds ctx req (sched.late eligible) _ parts.1
            (hedge_all-Holds ctx req eligible pending g' hr)
