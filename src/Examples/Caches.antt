-- ===== src/Examples/Caches.antt =====
-- Two quotes of a fan-out, stored and looked up again.
use carrier_gateway.Prelude.{
  ℕ, ◌≡◌, refl, pos, bytes, text_eq, false, none, some, [], ◌∷◌, map, arith,
}
use carrier_gateway.Prelude.Maps.{member}
use carrier_gateway.Domain.{QuoteResult, ok}
use carrier_gateway.Repository.{Row, timestamptz}
use carrier_gateway.Repository.RoundTrip.{stored}
use carrier_gateway.Orchestrator.State.{Gateway, Orchestrator}
use carrier_gateway.Orchestrator.Collect.{collect, sort_quotes, quote_cmp}
use carrier_gateway.Orchestrator.Eligible.{scoped_key}
use carrier_gateway.Orchestrator.Quotes.{finish, get_quotes}
use carrier_gateway.Orchestrator.Cached.{sql_repo, finish-get_quotes}
use carrier_gateway.Examples.{fixed_point}
use carrier_gateway.Examples.Gateways.{bucket, gateway, orch, request, schedule}

abbrev stocked : Orchestrator ℕ ℕ
stocked = record orch { repo = some sql_repo }

abbrev cheap : QuoteResult
cheap = record {
  request_id = bytes "r-1";
  carrier_id = bytes "beta";
  premium = record { amount = pos 110000; currency = bytes "USD" };
  expires_at = pos 900400;
  carrier_ref = bytes "ref";
  latency = pos 1500000;
  is_hedged = false;
}

abbrev dear : QuoteResult
dear = record cheap {
  carrier_id = bytes "alpha";
  premium = record { amount = pos 120000; currency = [] };
}

abbrev other_row : Row
other_row = record {
  request_id = bytes "c:r-2";
  carrier_id = bytes "alpha";
  premium_cents = pos 110000;
  currency = bytes "USD";
  expires_at = pos 100;
  is_hedged = false;
  latency_ms = pos 1;
}

-- The dear quote has arrived first, and twice.
abbrev arrived : Gateway ℕ ℕ
arrived = record gateway { channel = dear ∷ cheap ∷ dear ∷ []; rows = other_row ∷ [] }

-- A second request, when the clock reads 100.
abbrev later : Gateway ℕ ℕ
later = record (finish fixed_point bucket stocked request (pos 0) arrived).0 { clock = pos 100 }

finish-get_quotes_example :
    get_quotes fixed_point bucket stocked schedule (λ g. none) request later
    ≡ some (later, ok (map (stored (bytes "c:r-1")) (cheap ∷ dear ∷ [])))
unfolding timestamptz sort_quotes quote_cmp collect member text_eq scoped_key
finish-get_quotes_example =
    finish-get_quotes fixed_point bucket stocked refl request refl (pos 0) schedule (λ g. none)
      arrived later cheap (dear ∷ []) refl ((λ e. absurd (ground arith)), tt)
      (((omega arith, λ e. absurd (ground arith)), tt), (tt, tt))
      (
        (omega arith, (1500000, (refl, omega arith))),
        ((omega arith, (1500000, (refl, omega arith))), tt),
      )
      refl
