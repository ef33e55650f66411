-- ===== src/Orchestrator/Contract.antt =====
-- internal/ports/quote_port.go: what OrchestratorPort promises, and that GetQuotes keeps it.
use mathlib.Core.Path.{subst}
use carrier_gateway.Prelude.{
  refl, sym, ◌∙◌, some_inj, ◌⊎◌, ℤ, ◌≤ℤ◌, ◌≡◌, false, Text, Option, none, some, Option-cases,
  Bool-cases, inl, inr, is_empty, List, [], ◌∷◌, All, arith,
}
use carrier_gateway.Domain.{Carrier, Context, QuoteRequest, QuoteResult, Result, ok, err}
use carrier_gateway.Float.{FloatOps}
use carrier_gateway.Limiter.{TokenBucket}
use carrier_gateway.Repository.{Row, find_by_request_id, select_rows, results_of, result_of, found}
use carrier_gateway.Repository.Ordering.{RowsByPremium, select-RowsByPremium}
use carrier_gateway.Orchestrator.State.{
  Gateway, Orchestrator, Repository, without_cancel, with_timeout,
}
use carrier_gateway.Orchestrator.Collect.{collect, quote_cmp}
use carrier_gateway.Orchestrator.Order.{Ascending, after, sort-Ascending}
use carrier_gateway.Orchestrator.Eligible.{scoped_key}
use carrier_gateway.Orchestrator.Launch.{Schedule, run_calls}
use carrier_gateway.Orchestrator.Quotes.{
  finish, fan_over, fan_out, fly, after_lookup, get_quotes, request_timeout,
}
use carrier_gateway.Orchestrator.Equipped.{Returns, Same}
use carrier_gateway.Orchestrator.Total.{Tame}
use carrier_gateway.Orchestrator.Serving.{IsPopulated, fan_out-IsPopulated}
use carrier_gateway.Orchestrator.Answers.{Sharing, Serves, get_quotes-Serves}
use carrier_gateway.Orchestrator.Cached.{sql_repo}

-- The premiums do not decrease.
abbrev pub ByPremium : List QuoteResult → Type 0
ByPremium [] = Unit
ByPremium (q ∷ qs) = All (λ p. q.premium.amount ≤ℤ p.premium.amount) qs × ByPremium qs

-- No error, and the quotes in the order of their premiums.
abbrev pub Promised : Result (List QuoteResult) → Type 0
Promised (ok qs) = ByPremium qs
Promised (err e) = ⊥

after-premium : (a b : QuoteResult) → after a b ≡ false → a.premium.amount ≤ℤ b.premium.amount
unfolding quote_cmp
after-premium a b h = ground arith

after-All :
    (a : QuoteResult) (rs : List QuoteResult)
    → All (λ s. after a s ≡ false) rs
    → All (λ s. a.premium.amount ≤ℤ s.premium.amount) rs
after-All a [] h = tt
after-All a (r ∷ rs) h = (after-premium a r h.0, after-All a rs h.1)

Ascending-ByPremium : (rs : List QuoteResult) → Ascending rs → ByPremium rs
Ascending-ByPremium [] h = tt
Ascending-ByPremium (r ∷ rs) h = (after-All r rs h.0, Ascending-ByPremium rs h.1)

amounts-All :
    (a : ℤ) (id : Text) (rows : List Row)
    → All (λ s. a ≤ℤ s.premium_cents) rows
    → All (λ q. a ≤ℤ q.premium.amount) (results_of id rows)
unfolding results_of result_of
amounts-All a id [] h = tt
amounts-All a id (r ∷ rows) h = (h.0, amounts-All a id rows h.1)

results-ByPremium :
    (id : Text) (rows : List Row) → RowsByPremium rows → ByPremium (results_of id rows)
unfolding results_of result_of
results-ByPremium id [] h = tt
results-ByPremium id (r ∷ rows) h =
    (amounts-All r.premium_cents id rows h.0, results-ByPremium id rows h.1)

-- A hit of the cache keeps the promise.
abbrev pub HitPromised : Result (Option (List QuoteResult)) → Type 0
HitPromised (ok (some qs)) = ByPremium qs
HitPromised (ok none) = Unit
HitPromised (err e) = Unit

found-HitPromised : (qs : List QuoteResult) → ByPremium qs → HitPromised (ok (found qs))
found-HitPromised [] h = tt
found-HitPromised (q ∷ qs) h = h

-- The repository on the quotes table is one whose hits do.
pub sql_repo-HitPromised :
    {F B : Type 0} (key : Text) (g : Gateway F B)
    → HitPromised (sql_repo.find_by_request_id key g).1
unfolding find_by_request_id
sql_repo-HitPromised key g =
    found-HitPromised (results_of key (select_rows g.clock key g.rows))
      (results-ByPremium key _ (select-RowsByPremium g.clock key g.rows))

-- What the answer keeps, if there is one.
abbrev Kept : {F B : Type 0} → Option (Gateway F B × Result (List QuoteResult)) → Type 0
Kept none = Unit
Kept (some (g, r)) = Promised r

-- The orchestrator of a goroutine that waits for no other.
abbrev pub leader : {F B : Type 0} → Orchestrator F B → Orchestrator F B
leader orch = record orch { flight = λ key g. none }

module _ {F B : Type 0} (o : FloatOps F) (tb : TokenBucket F B (Gateway F B))
    (req : QuoteRequest) where
  fan_over-Kept :
      (orch : Orchestrator F B) (sched : Schedule F B) (ctx : Context (Gateway F B))
      (cs : List (Carrier F)) (g : Gateway F B)
      → Kept (fan_over o tb orch sched ctx req cs g)
  unfolding fan_over finish
  fan_over-Kept orch sched ctx [] g = tt
  fan_over-Kept orch sched ctx (c ∷ cs) g =
      elim (Option-cases (
        run_calls o tb orch sched (with_timeout ctx g.clock (request_timeout o tb req)) req (c ∷ cs)
          (record g { channel = [] }))) [
            | inl e ↦ rw (e, fan_over) tt
            | inr (g', e) ↦
                rw (e, fan_over) (Ascending-ByPremium _ (sort-Ascending (collect [] g'.channel)))
          ]

  fan_out-Kept :
      (orch : Orchestrator F B) (sched : Schedule F B) (ctx : Context (Gateway F B))
      (g : Gateway F B)
      → Kept (fan_out o tb orch sched ctx req g)
  unfolding fan_out
  fan_out-Kept orch sched ctx g = fan_over-Kept orch sched ctx _ g

module _ {F B : Type 0} (o : FloatOps F) (tb : TokenBucket F B (Gateway F B))
    (orch : Orchestrator F B) where
  -- There is no database, or it has the quotes table.
  abbrev pub IsBacked : Type 0
  IsBacked = (orch.repo ≡ none) ⊎ (orch.repo ≡ some sql_repo)

  -- Where the single flight shares a result, that is the result of a fan-out for the same key, which a
  -- goroutine that waits for no other has made while this one waited.
  pub record SharesCalls : Type 0 where
    pub shared :
        (key : Text) (g h : Gateway F B) (r : Result (List QuoteResult))
        → orch.flight key g ≡ some (h, r)
        → (sched : Schedule F B) × ((ctx : Context (Gateway F B)) × ((req : QuoteRequest) × (Tame tb
                  (leader orch)
                  sched
                × ((scoped_key req ≡ key)
                    × (fan_out o tb (leader orch) sched ctx req g ≡ some (h, r))))))

  shared-Kept :
      SharesCalls
      → (key : Text) (g h : Gateway F B) (r : Result (List QuoteResult))
      → orch.flight key g ≡ some (h, r)
      → Promised r
  shared-Kept shares key g h r e =
      let (sched, (ctx, (req, (_, (_, made))))) = shares.shared key g h r e in
      subst Kept made (fan_out-Kept o tb req (leader orch) sched ctx g)

  backed-Sharing : IsBacked → SharesCalls → Sharing o tb orch
  backed-Sharing backed shares = record {
    finds = λ repo e key g. finds backed repo e key g;
    lends = λ key g h r e populated.
        (let (sched, (ctx, (req, (tame, (_, made))))) = shares.shared key g h r e in
          subst (Serves o tb orch) made
            (fan_out-IsPopulated o tb (leader orch) sched ctx req g tame populated));
  }
    where
      finds :
          IsBacked
          → (repo : Repository (Gateway F B)) → orch.repo ≡ some repo
          → (key : Text) (g : Gateway F B) → Same g (repo.find_by_request_id key g).0
      finds (inl no_repo) repo e key g = absurd (ground (arith, no_repo, e))
      finds (inr has_repo) repo e key g =
          subst (λ (x : Repository (Gateway F B)). Same g (x.find_by_request_id key g).0)
            (some_inj (sym has_repo ∙ e)) (refl, (refl, refl))

  module _ (sched : Schedule F B) (req : QuoteRequest) (backed : IsBacked)
      (shares : SharesCalls) where
    fly-Kept :
        (ctx : Context (Gateway F B)) (g : Gateway F B) → Kept (fly o tb orch sched ctx req g)
    unfolding fly
    fly-Kept ctx g = elim (Bool-cases (is_empty req.request_id)) [
      | inl anonymous ↦ rw (anonymous, fly) (fan_out-Kept o tb req orch sched ctx g)
      | inr named ↦ elim (Option-cases (orch.flight (scoped_key req) g)) [
        | inl e ↦ rw (named, e, fly) (fan_out-Kept o tb req orch sched (without_cancel ctx) g)
        | inr (x, e) ↦ rw (named, e, fly) (shared-Kept shares (scoped_key req) g x.0 x.1 e)
      ]
    ]

    after_lookup-Kept :
        (ctx : Context (Gateway F B)) (x : Gateway F B × Result (Option (List QuoteResult)))
        → HitPromised x.1
        → Kept (after_lookup o tb orch sched ctx req x)
    unfolding after_lookup
    after_lookup-Kept ctx (g, ok (some cached)) h = h
    after_lookup-Kept ctx (g, ok none) h = fly-Kept ctx g
    after_lookup-Kept ctx (g, err e) h = fly-Kept ctx g

    get_quotes-Kept :
        (ctx : Context (Gateway F B)) (g : Gateway F B)
        → Kept (get_quotes o tb orch sched ctx req g)
    unfolding get_quotes
    get_quotes-Kept ctx g = elim backed [
      | inl e ↦ rw (e, get_quotes) (fly-Kept ctx g)
      | inr e ↦ elim (Bool-cases (is_empty req.request_id)) [
        | inl anonymous ↦
            rw (e, get_quotes) (rw (anonymous, get_quotes) (fan_out-Kept o tb req orch sched ctx g))
        | inr named ↦
            rw (e, get_quotes)
              (rw (named, get_quotes)
                (after_lookup-Kept ctx (sql_repo.find_by_request_id (scoped_key req) g)
                  (sql_repo-HitPromised (scoped_key req) g)))
      ]
    ]

  Kept-Returns :
      (x : Option (Gateway F B × Result (List QuoteResult)))
      → Serves o tb orch x
      → Kept x
      → Returns (λ r. IsPopulated o tb orch r.0 × Promised r.1) x
  Kept-Returns none h k = absurd h
  Kept-Returns (some (g, r)) h k = (h, k)

  -- GetQuotes of an orchestrator whose carriers all have their breaker, limiter and tracker returns,
  -- without an error and with the quotes in the order of their premiums, by a hit of the quotes table,
  -- a result that the single flight shares or a fan-out, and leaves the carriers what they have, if the
  -- code that it calls leaves the maps of the orchestrator alone, there is no database or it has the
  -- quotes table, and a shared result is that of a fan-out for the same key which was made meanwhile.
  pub get_quotes-Promised :
      (sched : Schedule F B) (ctx : Context (Gateway F B)) (req : QuoteRequest) (g : Gateway F B)
      → Tame tb orch sched
      → IsBacked
      → SharesCalls
      → IsPopulated o tb orch g
      → Returns
          (λ r. IsPopulated o tb orch r.0 × Promised r.1)
          (get_quotes o tb orch sched ctx req g)
  get_quotes-Promised sched ctx req g tame backed shares h =
      Kept-Returns (get_quotes o tb orch sched ctx req g)
        (get_quotes-Serves o tb orch sched ctx req tame (backed-Sharing backed shares) g h)
        (get_quotes-Kept sched req backed shares ctx g)
