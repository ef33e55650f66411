-- ===== src/Orchestrator/Origin.antt =====
-- orchestrator.go: the results channel has room for every result of a fan-out, and every quote of the
-- answer has come from a carrier that was asked.
use carrier_gateway.Prelude.{
  ◌*◌, ◌≤◌, ◌≡◌, refl, Text, Option, none, some, List, [], ◌∷◌, All, length, Bool-cases, inl, inr,
  arith,
}
use carrier_gateway.Prelude.Maps.{member}
use carrier_gateway.Domain.{Carrier, Context, QuoteRequest, QuoteResult, Result, ok}
use carrier_gateway.Float.{FloatOps}
use carrier_gateway.Limiter.{TokenBucket}
use carrier_gateway.Hedging.Keeps.{IfSome}
use carrier_gateway.Orchestrator.State.{Gateway, Orchestrator, with_timeout}
use carrier_gateway.Orchestrator.Collect.{collect, sort_quotes}
use carrier_gateway.Orchestrator.Dedup.{All-sort}
use carrier_gateway.Orchestrator.Eligible.{filter_eligible}
use carrier_gateway.Orchestrator.Equipped.{Returns}
use carrier_gateway.Orchestrator.Total.{Tame, run_calls-Ready}
use carrier_gateway.Orchestrator.Serving.{
  ids, IsPopulated, filter-All, All-listed, Returns-both, fan_out-IsPopulated,
}
use carrier_gateway.Orchestrator.Launch.{Schedule, run_calls}
use carrier_gateway.Orchestrator.Quotes.{finish, fan_over, fan_out, request_timeout}
use carrier_gateway.Orchestrator.Vouched.{Quiet, IsVouched, IfSome-then}
use carrier_gateway.Orchestrator.Provenance.{HasSent, run_calls-HasSent}

All-collect :
    (P : QuoteResult → Type 0) (seen : List Text) (rs : List QuoteResult)
    → All P rs
    → All P (collect seen rs)
unfolding collect
All-collect P seen [] h = tt
All-collect P seen (r ∷ rs) h = elim (Bool-cases (member r.carrier_id seen)) [
  | inl e ↦ rw (e, collect) (All-collect P seen rs h.1)
  | inr e ↦ rw (e, collect) (h.0, All-collect P (r.carrier_id ∷ seen) rs h.1)
]

IfSome-map :
    {A : Type 0} (P Q : A → Type 0) (r : Option A) → ((x : A) → P x → Q x) → IfSome P r → IfSome Q r
IfSome-map P Q none f h = tt
IfSome-map P Q (some x) f h = f x h

-- The carriers that a fan-out asks.
abbrev pub asked : {F B : Type 0} → Orchestrator F B → QuoteRequest → Gateway F B → List (Carrier F)
asked orch req g = filter_eligible g.breakers req.coverage_lines orch.carriers

-- A list of quotes that carriers of the list have given.
abbrev pub IsOwn :
    {F B : Type 0}
    → Orchestrator F B
    → QuoteRequest
    → List (Carrier F)
    → Gateway F B × Result (List QuoteResult)
    → Type 0
IsOwn orch req cs x =
    (qs : List QuoteResult) × ((x.1 ≡ ok qs) × All (IsVouched orch (ids cs) req) qs)

module _ {F B : Type 0} (o : FloatOps F) (tb : TokenBucket F B (Gateway F B))
    (orch : Orchestrator F B) (sched : Schedule F B) (tame : Tame tb orch sched)
    (quiet : Quiet tb orch sched) (ctx : Context (Gateway F B)) (req : QuoteRequest)
    (g : Gateway F B) (populated : IsPopulated o tb orch g) where
  -- The calls and the hedges of a fan-out return, and have sent no more results than the channel has
  -- room for, two for each eligible carrier: no send blocks. The carriers have their breaker, limiter
  -- and tracker, and the code that is called leaves their maps and the results channel alone.
  pub results_fit :
      Returns
        (λ g'. length g'.channel ≤ length (asked orch req g) * 2)
        (run_calls o tb orch sched ctx req (asked orch req g) (record g { channel = [] }))
  results_fit =
      let start = record g { channel = [] } in
      let calls = run_calls o tb orch sched ctx req (asked orch req g) start in
      Returns-both (λ g'. length g'.channel ≤ length (asked orch req g) * 2) (IsPopulated o tb orch)
        calls
        (IfSome-map _ _ calls (λ g' h. h.0)
          (run_calls-HasSent o tb orch sched quiet req (asked orch req g) ctx start
            (omega arith, tt)))
        (run_calls-Ready o tb (ids orch.carriers) orch sched tame ctx req (asked orch req g) start
          (filter-All _ g.breakers req.coverage_lines orch.carriers (All-listed B orch.carriers))
          populated)

  fan_over-IsOwn :
      (cs : List (Carrier F)) → IfSome (IsOwn orch req cs) (fan_over o tb orch sched ctx req cs g)
  unfolding fan_over finish
  fan_over-IsOwn [] = ([], (refl, tt))
  fan_over-IsOwn (c ∷ cs) =
      let until = with_timeout ctx g.clock (request_timeout o tb req) in
      let start = record g { channel = [] } in
      IfSome-then (HasSent o tb orch sched quiet req (c ∷ cs) (length (c ∷ cs) * 2))
        (IsOwn orch req (c ∷ cs)) (run_calls o tb orch sched until req (c ∷ cs) start) _
        (run_calls-HasSent o tb orch sched quiet req (c ∷ cs) until start (omega arith, tt))
        (λ g' h. (
          sort_quotes (collect [] g'.channel),
          (refl, All-sort _ (collect [] g'.channel) (All-collect _ [] g'.channel h.1)),
        ))

  -- A fan-out returns a list of quotes, and each of them is a result of the registered adapter of an
  -- eligible carrier for this request, with its carrier, reference, premium and expiry as they were;
  -- hedges included. The carriers have their breaker, limiter and tracker, and the code that is called
  -- leaves their maps and the results channel alone.
  pub fan_out-IsOwn :
      Returns (IsOwn orch req (asked orch req g)) (fan_out o tb orch sched ctx req g)
  unfolding fan_out
  fan_out-IsOwn =
      Returns-both (IsOwn orch req (asked orch req g)) (λ r. IsPopulated o tb orch r.0)
        (fan_out o tb orch sched ctx req g) (fan_over-IsOwn (asked orch req g))
        (fan_out-IsPopulated o tb orch sched ctx req g tame populated)
