-- ===== src/Orchestrator/Contained.antt =====
-- orchestrator.go: what the code that a fan-out calls leaves alone, and whom the filter keeps.
use mathlib.Core.List.{Permᴰ}
use mathlib.Core.Path.{subst}
use mathlib.Core.Bool.{false≢true}
use carrier_gateway.Prelude.{
  ◌≡◌, ◌≢◌, sym, ◌∙◌, Text, true, some, List, [], ◌∷◌, ◌++◌, All, Bool-cases, inl, inr,
}
use carrier_gateway.Prelude.Maps.{lookup}
use carrier_gateway.Domain.{Carrier, Context, QuoteRequest, QuoteResult}
use carrier_gateway.Ports.{cb_open}
use carrier_gateway.Breaker.{Breaker}
use carrier_gateway.Limiter.{TokenBucket}
use carrier_gateway.Orchestrator.State.{Gateway, AdapterFunc, Repository, Orchestrator}
use carrier_gateway.Orchestrator.Lockout.{Leaves}
use carrier_gateway.Orchestrator.Eligible.{is_shut_out, has_capability, filter_eligible}
use carrier_gateway.Orchestrator.Launch.{Schedule}

-- The code that the orchestrator calls does not touch the circuit breakers, and the schedule runs
-- each eligible carrier's call once.
pub record Contained {F B : Type 0} (tb : TokenBucket F B (Gateway F B)) (orch : Orchestrator F B)
    (sched : Schedule F B) : Type 0 where
  pub adapters :
      (k : Text) (exec : AdapterFunc (Gateway F B))
      → lookup k orch.registry ≡ some exec
      → (ctx : Context (Gateway F B)) (req : QuoteRequest) → Leaves (λ g. (exec ctx req g).0)
  pub waits : (ctx : Context (Gateway F B)) (l : B) → Leaves (λ g. (tb.wait ctx l g).1)
  pub saves :
      (repo : Repository (Gateway F B))
      → orch.repo ≡ some repo
      → (key : Text) (qs : List QuoteResult) → Leaves (λ g. (repo.save key qs g).0)
  pub wakings : All (λ w. (f : Gateway F B → Gateway F B) → w ≡ some f → Leaves f) sched.wakes
  pub order : (cs : List (Carrier F)) → Permᴰ cs (sched.early cs ++ sched.late cs)

shut_out :
    (id k : Text) (b : Breaker) (breakers : List (Text × Breaker))
    → lookup id breakers ≡ some b
    → b.state ≡ cb_open
    → k ≡ id
    → is_shut_out breakers k ≡ true
unfolding is_shut_out
shut_out id k b breakers h e same =
    subst (λ (j : Text). is_shut_out breakers j ≡ true) (sym same) (rw (h, is_shut_out) (rw e))

pub All-filter :
    {F : Type 0} (id : Text) (b : Breaker) (breakers : List (Text × Breaker)) (lines : List Text)
    (cs : List (Carrier F))
    → lookup id breakers ≡ some b
    → b.state ≡ cb_open
    → All (λ c. c.id ≢ id) (filter_eligible breakers lines cs)
unfolding filter_eligible
All-filter id b breakers lines [] h e = tt
All-filter id b breakers lines (c ∷ cs) h e =
    let rest = All-filter id b breakers lines cs h e in
    elim (Bool-cases (is_shut_out breakers c.id)) [
      | inl out ↦ rw (out, filter_eligible) rest
      | inr kept ↦
          let other : c.id ≢ id =
            λ same. false≢true (sym kept ∙ shut_out id c.id b breakers h e same) in
          elim (Bool-cases (has_capability lines c.capabilities)) [
            | inl able ↦ rw (kept, able, filter_eligible) (other, rest)
            | inr unable ↦ rw (kept, unable, filter_eligible) rest
          ]
    ]

pub All-split :
    {A : Type 0} (P : A → Type 0) (xs ys : List A) → All P (xs ++ ys) → All P xs × All P ys
All-split P [] ys h = (tt, h)
All-split P (x ∷ xs) ys h = let (hx, hy) = All-split P xs ys h.1 in ((h.0, hx), hy)
