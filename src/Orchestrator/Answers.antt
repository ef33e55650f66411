-- ===== src/Orchestrator/Answers.antt =====
-- orchestrator.go: GetQuotes as a whole, with the cache and the single flight, returns.
use carrier_gateway.Prelude.{
  ◌≡◌, Text, Option, none, some, List, Bool-cases, Option-cases, inl, inr, is_empty,
}
use carrier_gateway.Domain.{Context, QuoteRequest, QuoteResult, Result, ok, err}
use carrier_gateway.Float.{FloatOps}
use carrier_gateway.Limiter.{TokenBucket}
use carrier_gateway.Orchestrator.State.{Gateway, Orchestrator, Repository, without_cancel}
use carrier_gateway.Orchestrator.Eligible.{scoped_key}
use carrier_gateway.Orchestrator.Launch.{Schedule}
use carrier_gateway.Orchestrator.Quotes.{fly, after_lookup, get_quotes}
use carrier_gateway.Orchestrator.Equipped.{Returns, Same, Same-Ready}
use carrier_gateway.Orchestrator.Total.{Tame}
use carrier_gateway.Orchestrator.Serving.{ids, IsPopulated, fan_out-IsPopulated}

module _ {F B : Type 0} (o : FloatOps F) (tb : TokenBucket F B (Gateway F B))
    (orch : Orchestrator F B) where
  -- A look-up leaves the maps of the orchestrator alone, and the call whose result is shared leaves
  -- every carrier its breaker, limiter and tracker.
  pub record Sharing : Type 0 where
    pub finds :
        (repo : Repository (Gateway F B))
        → orch.repo ≡ some repo
        → (key : Text) (g : Gateway F B) → Same g (repo.find_by_request_id key g).0
    pub lends :
        (key : Text) (g h : Gateway F B) (r : Result (List QuoteResult))
        → orch.flight key g ≡ some (h, r)
        → IsPopulated o tb orch g
        → IsPopulated o tb orch h

  -- It returns, and the carriers keep what they have.
  abbrev pub Serves : Option (Gateway F B × Result (List QuoteResult)) → Type 0
  Serves = Returns (λ r. IsPopulated o tb orch r.0)

  module _ (sched : Schedule F B) (ctx : Context (Gateway F B)) (req : QuoteRequest)
      (tame : Tame tb orch sched) (sharing : Sharing) where
    fly-Serves :
        (g : Gateway F B) → IsPopulated o tb orch g → Serves (fly o tb orch sched ctx req g)
    unfolding fly
    fly-Serves g h = elim (Bool-cases (is_empty req.request_id)) [
      | inl anonymous ↦ rw (anonymous, fly) (fan_out-IsPopulated o tb orch sched ctx req g tame h)
      | inr named ↦ elim (Option-cases (orch.flight (scoped_key req) g)) [
        | inl e ↦
            rw (named, e, fly)
              (fan_out-IsPopulated o tb orch sched (without_cancel ctx) req g tame h)
        | inr (x, e) ↦ rw (named, e, fly) (sharing.lends (scoped_key req) g x.0 x.1 e h)
      ]
    ]

    after_lookup-Serves :
        (x : Gateway F B × Result (Option (List QuoteResult)))
        → IsPopulated o tb orch x.0
        → Serves (after_lookup o tb orch sched ctx req x)
    unfolding after_lookup
    after_lookup-Serves (g, ok (some cached)) h = h
    after_lookup-Serves (g, ok none) h = fly-Serves g h
    after_lookup-Serves (g, err e) h = fly-Serves g h

    -- GetQuotes of an orchestrator whose carriers all have their breaker, limiter and tracker returns,
    -- by a hit of the cache, a shared result or a fan-out, and leaves them so, if the code that it calls
    -- leaves the maps of the orchestrator alone.
    pub get_quotes-Serves :
        (g : Gateway F B) → IsPopulated o tb orch g → Serves (get_quotes o tb orch sched ctx req g)
    unfolding get_quotes
    get_quotes-Serves g h = elim (Option-cases orch.repo) [
      | inl e ↦ rw (e, get_quotes) (fly-Serves g h)
      | inr (repo, e) ↦ elim (Bool-cases (is_empty req.request_id)) [
        | inl anonymous ↦
            rw (e, get_quotes)
              (rw (anonymous, get_quotes) (fan_out-IsPopulated o tb orch sched ctx req g tame h))
        | inr named ↦
            rw (e, get_quotes)
              (rw (named, get_quotes)
                (after_lookup-Serves (repo.find_by_request_id (scoped_key req) g) (
                  Same-Ready o tb (ids orch.carriers) g
                    (repo.find_by_request_id (scoped_key req) g).0
                    (sharing.finds repo e (scoped_key req) g) h)))
      ]
    ]
