-- ===== src/Orchestrator/Serving.antt =====
-- orchestrator.go: sequences of fan-outs of an orchestrator whose carriers are all equipped. They
-- return, and a circuit that is open stays open.
use carrier_gateway.Prelude.{
  ◌≡◌, Text, Option, none, some, List, [], ◌∷◌, All, map, Bool-cases, Option-cases, inl, inr,
  is_empty,
}
use carrier_gateway.Prelude.Maps.{lookup}
use carrier_gateway.Domain.{Carrier, Context, QuoteRequest, QuoteResult}
use carrier_gateway.Float.{FloatOps}
use carrier_gateway.Ports.{cb_open}
use carrier_gateway.Breaker.{Breaker}
use carrier_gateway.Limiter.{TokenBucket}
use carrier_gateway.Hedging.Keeps.{IfSome}
use carrier_gateway.Orchestrator.State.{Gateway, Orchestrator, with_timeout}
use carrier_gateway.Orchestrator.Equipped.{Equipped, Returns, Same, Ready, Same-Ready}
use carrier_gateway.Orchestrator.Contained.{Contained}
use carrier_gateway.Orchestrator.Total.{Tame, Returns-then, IsListed, run_calls-Ready}
use carrier_gateway.Orchestrator.Forever.{Job, serve, open_forever}
use carrier_gateway.Orchestrator.Eligible.{is_shut_out, has_capability, filter_eligible, scoped_key}
use carrier_gateway.Orchestrator.Launch.{Schedule, run_calls}
use carrier_gateway.Orchestrator.Quotes.{save_quotes, finish, fan_over, fan_out, request_timeout}

abbrev pub ids : {F : Type 0} → List (Carrier F) → List Text
ids = map (λ c. c.id)

pub All-map :
    {A : Type 0} (P Q : A → Type 0) (xs : List A) → ((x : A) → P x → Q x) → All P xs → All Q xs
All-map P Q [] f h = tt
All-map P Q (x ∷ xs) f h = (f x h.0, All-map P Q xs f h.1)

pub filter-All :
    {F : Type 0} (P : Carrier F → Type 0) (breakers : List (Text × Breaker)) (lines : List Text)
    (cs : List (Carrier F))
    → All P cs
    → All P (filter_eligible breakers lines cs)
unfolding filter_eligible
filter-All P breakers lines [] h = tt
filter-All P breakers lines (c ∷ cs) h =
    let rest = filter-All P breakers lines cs h.1 in
    elim (Bool-cases (is_shut_out breakers c.id)) [
      | inl out ↦ rw (out, filter_eligible) rest
      | inr kept ↦ elim (Bool-cases (has_capability lines c.capabilities)) [
        | inl able ↦ rw (kept, able, filter_eligible) (h.0, rest)
        | inr unable ↦ rw (kept, unable, filter_eligible) rest
      ]
    ]

pub All-listed :
    {F : Type 0} (B : Type 0) (cs : List (Carrier F))
    → All (λ (c : Carrier F). (h : Gateway F B) → All (Equipped h) (ids cs) → Equipped h c.id) cs
All-listed B [] = tt
All-listed B (c ∷ cs) = ((λ h r. r.0), All-map _ _ cs (λ x f h r. f h r.1) (All-listed B cs))

pub Returns-both :
    {A : Type 0} (P Q : A → Type 0) (r : Option A) → IfSome P r → Returns Q r → Returns P r
Returns-both P Q none h k = absurd k
Returns-both P Q (some x) h k = h

module _ {F B : Type 0} (o : FloatOps F) (tb : TokenBucket F B (Gateway F B))
    (orch : Orchestrator F B) where
  -- Every carrier has a breaker, a limiter and a tracker.
  abbrev pub IsPopulated : Gateway F B → Type 0
  IsPopulated = Ready o tb (ids orch.carriers)

  save_quotes-IsPopulated :
      (sched : Schedule F B) (req : QuoteRequest) (qs : List QuoteResult) (g : Gateway F B)
      → Tame tb orch sched
      → IsPopulated g
      → IsPopulated (save_quotes o tb orch req qs g)
  unfolding save_quotes
  save_quotes-IsPopulated sched req [] g tame h = h
  save_quotes-IsPopulated sched req (q ∷ qs) g tame h = elim (Option-cases orch.repo) [
    | inl e ↦ rw (e, save_quotes) h
    | inr (repo, e) ↦ elim (Bool-cases (is_empty req.request_id)) [
      | inl anonymous ↦ rw (e, save_quotes) (rw anonymous h)
      | inr named ↦
          rw (e, save_quotes)
            (rw named (
              Same-Ready o tb (ids orch.carriers) g (repo.save (scoped_key req) (q ∷ qs) g).0
                (tame.saves repo e (scoped_key req) (q ∷ qs) g) h))
    ]
  ]

  fan_over-IsPopulated :
      (sched : Schedule F B) (ctx : Context (Gateway F B)) (req : QuoteRequest)
      (eligible : List (Carrier F)) (g : Gateway F B)
      → Tame tb orch sched
      → ((tame : Tame tb orch sched)
          → All (IsListed o tb (ids orch.carriers) orch sched tame) eligible)
      → IsPopulated g
      → Returns (λ r. IsPopulated r.0) (fan_over o tb orch sched ctx req eligible g)
  unfolding fan_over finish
  fan_over-IsPopulated sched ctx req [] g tame d h = h
  fan_over-IsPopulated sched ctx req (c ∷ cs) g tame d h =
      Returns-then IsPopulated (λ r. IsPopulated r.0)
        (run_calls o tb orch sched (with_timeout ctx g.clock (request_timeout o tb req)) req
          (c ∷ cs) (record g { channel = [] }))
        _
        (run_calls-Ready o tb (ids orch.carriers) orch sched tame _ req (c ∷ cs)
          (record g { channel = [] }) (d tame) h)
        (λ g' h'. save_quotes-IsPopulated sched req _ g' tame h')

  -- A fan-out of an orchestrator whose carriers all have their breaker, limiter and tracker returns,
  -- and leaves them so, if the code that it calls leaves the maps of the orchestrator alone.
  pub fan_out-IsPopulated :
      (sched : Schedule F B) (ctx : Context (Gateway F B)) (req : QuoteRequest) (g : Gateway F B)
      → Tame tb orch sched
      → IsPopulated g
      → Returns (λ r. IsPopulated r.0) (fan_out o tb orch sched ctx req g)
  unfolding fan_out
  fan_out-IsPopulated sched ctx req g tame h =
      fan_over-IsPopulated sched ctx req
        (filter_eligible g.breakers req.coverage_lines orch.carriers) g tame
        (λ t. filter-All _ g.breakers req.coverage_lines orch.carriers (All-listed B orch.carriers))
        h

  -- The jobs, and what happens between them, leave the maps of the orchestrator alone.
  abbrev pub AllTame : List (Job F B) → Type 0
  AllTame = All (λ j. Tame tb orch j.sched × ((g : Gateway F B) → Same g (j.pause g)))

  serve-IsPopulated :
      (js : List (Job F B)) (g : Gateway F B)
      → AllTame js
      → IsPopulated g
      → Returns IsPopulated (serve o tb orch js g)
  serve-IsPopulated [] g t h = h
  serve-IsPopulated (j ∷ js) g t h =
      Returns-then (λ r. IsPopulated r.0) IsPopulated
        (fan_out o tb orch j.sched j.ctx j.req (j.pause g)) _
        (fan_out-IsPopulated j.sched j.ctx j.req (j.pause g) t.0.0
          (Same-Ready o tb (ids orch.carriers) g (j.pause g) (t.0.1 g) h))
        (λ r h'. serve-IsPopulated js r.0 t.1 h')

  Tame-Contained : (sched : Schedule F B) → Tame tb orch sched → Contained tb orch sched
  Tame-Contained sched t = record {
    adapters = λ k exec e ctx req g. (t.adapters k exec e ctx req g).0;
    waits = λ ctx l g. (t.waits ctx l g).0;
    saves = λ repo e key qs g. (t.saves repo e key qs g).0;
    wakings = All-map _ _ sched.wakes (λ w h f e g. (h f e g).0) t.wakings;
    order = t.order;
  }

  -- If every carrier has its breaker, limiter and tracker, and the code that is called leaves the maps
  -- of the orchestrator alone, then any sequence of fan-outs that do not overlap returns, and a
  -- circuit that is open before it is open after it with the same opening time, whatever time passes
  -- between the fan-outs: OpenTimeout is never acted on.
  pub circuit_stays_open :
      (id : Text) (b : Breaker) (js : List (Job F B)) (g : Gateway F B)
      → AllTame js
      → IsPopulated g
      → b.state ≡ cb_open
      → lookup id g.breakers ≡ some b
      → Returns (λ g'. lookup id g'.breakers ≡ some b) (serve o tb orch js g)
  circuit_stays_open id b js g t p e h =
      Returns-both (λ g'. lookup id g'.breakers ≡ some b) IsPopulated (serve o tb orch js g)
        (open_forever o tb orch id b js g
          (All-map _ _ js (λ j x. (Tame-Contained j.sched x.0, (λ g'. (x.1 g').0))) t) e h)
        (serve-IsPopulated js g t p)
