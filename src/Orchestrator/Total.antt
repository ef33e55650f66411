-- ===== src/Orchestrator/Total.antt =====
-- orchestrator.go: a fan-out over equipped carriers returns, and leaves them equipped.
use mathlib.Core.List.{Permᴰ}
use carrier_gateway.Prelude.{
  All-perm, ◌≡◌, refl, Text, Option, none, some, List, [], ◌∷◌, ◌++◌, All, Option-cases, inl, inr,
}
use carrier_gateway.Prelude.Maps.{lookup}
use carrier_gateway.Domain.{Carrier, Context, QuoteRequest, QuoteResult}
use carrier_gateway.Float.{FloatOps}
use carrier_gateway.Limiter.{TokenBucket}
use carrier_gateway.Hedging.{Fired, deliver_hedge, HedgeCarrier, Pending}
use carrier_gateway.Hedging.Keeps.{IfSome, monitor-keeps}
use carrier_gateway.Orchestrator.State.{Gateway, gateway_env, AdapterFunc, Repository, Orchestrator}
use carrier_gateway.Orchestrator.Call.{call_carrier}
use carrier_gateway.Orchestrator.Contained.{All-split}
use carrier_gateway.Orchestrator.Equipped.{
  Equipped, Returns, Same, Ready, Ready-mono, Same-Ready, call_carrier-Ready, insert-Has,
}
use carrier_gateway.Orchestrator.Launch.{
  Schedule, acquire_token, hedgeable, pending_carriers, call_all, deliver_all, hedge_context,
  hedge_all, run_calls,
}

-- The code that the orchestrator calls does not touch its maps, and the schedule runs each eligible
-- carrier's call once.
pub record Tame {F B : Type 0} (tb : TokenBucket F B (Gateway F B)) (orch : Orchestrator F B)
    (sched : Schedule F B) : Type 0 where
  pub adapters :
      (k : Text) (exec : AdapterFunc (Gateway F B))
      → lookup k orch.registry ≡ some exec
      → (ctx : Context (Gateway F B)) (req : QuoteRequest) (g : Gateway F B)
      → Same g (exec ctx req g).0
  pub waits : (ctx : Context (Gateway F B)) (l : B) (g : Gateway F B) → Same g (tb.wait ctx l g).1
  pub saves :
      (repo : Repository (Gateway F B))
      → orch.repo ≡ some repo
      → (key : Text) (qs : List QuoteResult) (g : Gateway F B) → Same g (repo.save key qs g).0
  pub wakings :
      All
        (λ w. (f : Gateway F B → Gateway F B) → w ≡ some f → (g : Gateway F B) → Same g (f g))
        sched.wakes
  pub order : (cs : List (Carrier F)) → Permᴰ cs (sched.early cs ++ sched.late cs)

pub Returns-then :
    {A B : Type 0} (P : A → Type 0) (Q : B → Type 0) (r : Option A) (f : A → Option B)
    → Returns P r
    → ((x : A) → P x → Returns Q (f x))
    → Returns Q (elim r as (λ _. Option B) [ none ↦ none | some x ↦ f x ])
Returns-then P Q none f h k = absurd h
Returns-then P Q (some x) f h k = k x h

module _ {F B : Type 0} (o : FloatOps F) (tb : TokenBucket F B (Gateway F B)) (ks : List Text)
    (orch : Orchestrator F B) (sched : Schedule F B) (tame : Tame tb orch sched) where
  -- The carrier is one of those that are equipped.
  abbrev pub IsListed : Carrier F → Type 0
  IsListed c = (h : Gateway F B) → Ready o tb ks h → Equipped h c.id

  call_all-Ready :
      (ctx : Context (Gateway F B)) (req : QuoteRequest) (cs : List (Carrier F)) (g : Gateway F B)
      → All IsListed cs
      → Ready o tb ks g
      → Returns (Ready o tb ks) (call_all o tb orch sched.prefer ctx req cs g)
  unfolding call_all
  call_all-Ready ctx req [] g d h = h
  call_all-Ready ctx req (c ∷ cs) g d h =
      Returns-then (Ready o tb ks) (Ready o tb ks) (call_carrier o tb orch sched.prefer ctx req c g)
        (λ x. call_all o tb orch sched.prefer ctx req cs x)
        (call_carrier-Ready o tb ks orch sched.prefer ctx req c g d.0
          (λ exec e. tame.adapters c.id exec e ctx req) (tame.waits ctx) h)
        (λ g' h'. call_all-Ready ctx req cs g' d.1 h')

  deliver_all-Ready :
      (ctx : Context (Gateway F B)) (req : QuoteRequest) (fs : List Fired) (g : Gateway F B)
      → Ready o tb ks g
      → Ready o tb ks (deliver_all o tb orch sched.sent ctx req fs g)
  unfolding deliver_all
  deliver_all-Ready ctx req [] g h = h
  deliver_all-Ready ctx req (f ∷ fs) g h = elim (Option-cases (lookup f.candidate orch.registry)) [
    | inl e ↦ rw (e, deliver_all) (deliver_all-Ready ctx req fs g h)
    | inr (exec, e) ↦
        let h' =
          Same-Ready o tb ks g (exec ctx req g).0 (tame.adapters f.candidate exec e ctx req g) h in
        elim (Option-cases (deliver_hedge (sched.sent f) (exec ctx req g).1)) [
          | inl none_sent ↦
              rw (e, deliver_all) (rw (none_sent, deliver_all) (deliver_all-Ready ctx req fs _ h'))
          | inr (r, was_sent) ↦
              rw (e, deliver_all) (rw (was_sent, deliver_all) (deliver_all-Ready ctx req fs _ h'))
        ]
  ]

  acquire-Ready :
      (k : Text) (w : Gateway F B) → Ready o tb ks w → Ready o tb ks (acquire_token o tb k w).0
  unfolding acquire_token
  acquire-Ready k w h = elim (Option-cases (lookup k w.limiters)) [
    | inl e ↦ rw (e, acquire_token) h
    | inr (l, e) ↦
        Ready-mono o tb ks w (acquire_token o tb k w).0
          (λ j x. rw (e, acquire_token) (x.0, (insert-Has k j _ w.limiters x.1.0, x.1.1))) h
  ]

  acquires-Ready :
      (g : Gateway F B) (cs : List (Carrier F))
      → All
          (λ (c : HedgeCarrier F (Gateway F B)).
            (w : Gateway F B) → Ready o tb ks w → Ready o tb ks (c.try_acquire w).0)
          (hedgeable o tb orch g cs)
  unfolding hedgeable
  acquires-Ready g [] = tt
  acquires-Ready g (c ∷ cs) = elim (Option-cases (lookup c.id orch.registry)) [
    | inl e ↦ rw (e, hedgeable) (acquires-Ready g cs)
    | inr (exec, e) ↦ elim (Option-cases (lookup c.id g.trackers)) [
      | inl e' ↦ rw (e, hedgeable) (rw (e', hedgeable) (acquires-Ready g cs))
      | inr (t, e') ↦
          rw (e, hedgeable)
            (rw (e', hedgeable) ((λ w h. acquire-Ready c.id w h), acquires-Ready g cs))
    ]
  ]

  wakes-Ready :
      (ws : List (Option (Gateway F B → Gateway F B)))
      → All
          (λ w. (f : Gateway F B → Gateway F B) → w ≡ some f → (g : Gateway F B) → Same g (f g))
          ws
      → All (λ w. IfSome (λ f. (g : Gateway F B) → Ready o tb ks g → Ready o tb ks (f g)) w) ws
  wakes-Ready [] h = tt
  wakes-Ready (none ∷ ws) h = (tt, wakes-Ready ws h.1)
  wakes-Ready (some f ∷ ws) h =
      ((λ g k. Same-Ready o tb ks g (f g) (h.0 f refl g) k), wakes-Ready ws h.1)

  hedge_all-Ready :
      (ctx : Context (Gateway F B)) (req : QuoteRequest) (eligible : List (Carrier F))
      (pending : List (Text × Pending F)) (g : Gateway F B)
      → Ready o tb ks g
      → Ready o tb ks (hedge_all o tb orch sched ctx req eligible pending g)
  unfolding hedge_all
  hedge_all-Ready ctx req eligible pending g h =
      deliver_all-Ready (hedge_context sched.drained ctx) req _ _ (
        monitor-keeps o gateway_env (hedgeable o tb orch g eligible) (Ready o tb ks) (λ m w k. k)
          (acquires-Ready g eligible) pending sched.wakes
          (record { already_hedged = []; fired = []; world = g })
          (wakes-Ready sched.wakes tame.wakings) h)

  pending-Returns :
      (g : Gateway F B) (cs : List (Carrier F))
      → All IsListed cs
      → Ready o tb ks g
      → Returns (λ ps. Unit) (pending_carriers o tb g cs)
  unfolding pending_carriers
  pending-Returns g [] d h = tt
  pending-Returns g (c ∷ cs) d h = elim (Option-cases (lookup c.id g.trackers)) [
    | inl e ↦ absurd ((d.0 g h).1.1 e)
    | inr (t, e) ↦
        rw (e, pending_carriers)
          (Returns-then (λ ps. Unit) (λ ps. Unit) (pending_carriers o tb g cs) _
            (pending-Returns g cs d.1 h) (λ ps u. tt))
  ]

  pub run_calls-Ready :
      (ctx : Context (Gateway F B)) (req : QuoteRequest) (eligible : List (Carrier F))
      (g : Gateway F B)
      → All IsListed eligible
      → Ready o tb ks g
      → Returns (Ready o tb ks) (run_calls o tb orch sched ctx req eligible g)
  unfolding run_calls
  run_calls-Ready ctx req eligible g d h =
      let (early, late) =
        All-split IsListed (sched.early eligible) (sched.late eligible)
          (All-perm IsListed (tame.order eligible) d) in
      Returns-then (λ ps. Unit) (Ready o tb ks) (pending_carriers o tb g eligible) _
        (pending-Returns g eligible d h)
        (λ pending u.
          Returns-then (Ready o tb ks) (Ready o tb ks)
            (call_all o tb orch sched.prefer ctx req (sched.early eligible) g) _
            (call_all-Ready ctx req (sched.early eligible) g early h)
            (λ g' h'.
              call_all-Ready ctx req (sched.late eligible)
                (hedge_all o tb orch sched ctx req eligible pending g') late
                (hedge_all-Ready ctx req eligible pending g' h')))
