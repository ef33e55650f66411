-- ===== src/Orchestrator/Cached.antt =====
-- GetQuotes with the repository on the quotes table: a request that is repeated while its quotes are
-- valid is answered from the table. The driver does not fail, and its NOW() is the clock.
use carrier_gateway.Prelude.{
  ℤ, ◌≡◌, refl, ap, ◌∙◌, is_empty, false, none, some, List, [], ◌∷◌, map, All,
}
use carrier_gateway.Domain.{Context, QuoteRequest, QuoteResult, ok}
use carrier_gateway.Float.{FloatOps}
use carrier_gateway.Limiter.{TokenBucket}
use carrier_gateway.Repository.{save, find_by_request_id}
use carrier_gateway.Repository.RoundTrip.{stored, IsFresh, IsAnswer, AllOther, save-find}
use carrier_gateway.Orchestrator.State.{Gateway, Orchestrator, Repository}
use carrier_gateway.Orchestrator.Collect.{collect, sort_quotes}
use carrier_gateway.Orchestrator.Eligible.{scoped_key}
use carrier_gateway.Orchestrator.Launch.{Schedule}
use carrier_gateway.Orchestrator.Quotes.{save_quotes, finish, after_lookup, get_quotes}

-- What `orchestrator.New` gets from repository.New, on the table of the gateway.
abbrev pub sql_repo : {F B : Type 0} → Repository (Gateway F B)
sql_repo = record {
  find_by_request_id = λ key g. (g, find_by_request_id none g.clock key g.rows);
  save = λ key qs g.
      let (rows, failed) = save none key qs g.rows in (record g { rows = rows }, failed);
}

module _ {F B : Type 0} (o : FloatOps F) (tb : TokenBucket F B (Gateway F B))
    (orch : Orchestrator F B) (has_repo : orch.repo ≡ some sql_repo) (req : QuoteRequest)
    (has_id : is_empty req.request_id ≡ false) where
  save_quotes-rows :
      (q : QuoteResult) (qs : List QuoteResult) (g : Gateway F B)
      → (save_quotes o tb orch req (q ∷ qs) g).rows ≡ (save none (scoped_key req) (q ∷ qs) g.rows).0
  unfolding save_quotes
  save_quotes-rows q qs g = rw (has_repo, has_id) refl

  -- With the repository on the table, the quotes that a fan-out ends with and stores are what GetQuotes
  -- answers a request with the same client and request id, as FindByRequestID gives them back, as long
  -- as none of them has expired, to the microsecond, if there is a request id, no row has the id, the premiums increase, no
  -- carrier occurs twice and the latencies fit an int64 and are not negative: whatever else has happened
  -- since, if the table is the same, no carrier is called and nothing changes.
  pub finish-get_quotes :
      (start : ℤ) (sched : Schedule F B) (ctx : Context (Gateway F B)) (g h : Gateway F B)
      (q : QuoteResult) (qs : List QuoteResult)
      → sort_quotes (collect [] g.channel) ≡ q ∷ qs
      → AllOther (scoped_key req) g.rows
      → IsAnswer (q ∷ qs)
      → All (IsFresh h.clock) (q ∷ qs)
      → h.rows ≡ (finish o tb orch req start g).0.rows
      → get_quotes o tb orch sched ctx req h ≡ some (h, ok (map (stored (scoped_key req)) (q ∷ qs)))
  unfolding get_quotes finish after_lookup
  finish-get_quotes start sched ctx g h q qs sorted fresh_id answer fresh same =
      let kept =
        same ∙ ap (λ a. (save_quotes o tb orch req a g).rows) sorted ∙ save_quotes-rows q qs g in
      let hit =
        ap (find_by_request_id none h.clock (scoped_key req)) kept
        ∙ save-find h.clock (scoped_key req) q qs g.rows fresh_id answer fresh in
      rw (has_repo, has_id, hit) refl
