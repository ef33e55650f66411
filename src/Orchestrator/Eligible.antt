-- ===== src/Orchestrator/Eligible.antt =====
-- orchestrator.go: which carriers are asked (filterEligibleCarriers), and the key of a request.
use carrier_gateway.Prelude.{
  Text, bytes, is_empty, Bool, false, ◌||◌, none, some, List, [], ◌∷◌, ◌++◌, if◌then◌else◌,
}
use carrier_gateway.Prelude.Maps.{lookup, member}
use carrier_gateway.Domain.{Carrier, QuoteRequest}
use carrier_gateway.Breaker.{Breaker}
use carrier_gateway.Hedging.{is_open}

-- One capability is enough: the loop over `c.Capabilities` with its `break`.
unfoldable pub has_capability : List Text → List Text → Bool
has_capability requested [] = false
has_capability requested (cap ∷ caps) = member cap requested || has_capability requested caps

-- The carrier has a circuit breaker, and that is open.
unfoldable pub is_shut_out : List (Text × Breaker) → Text → Bool
is_shut_out breakers id = elim (lookup id breakers) [ none ↦ false | some b ↦ is_open b.state ]

unfoldable pub filter_eligible :
    {F : Type 0} → List (Text × Breaker) → List Text → List (Carrier F) → List (Carrier F)
unfolding is_shut_out has_capability
filter_eligible breakers requested [] = []
filter_eligible breakers requested (c ∷ cs) =
    let rest = filter_eligible breakers requested cs in
    if is_shut_out breakers c.id
    then rest
    else if has_capability requested c.capabilities
    then c ∷ rest
    else rest

-- The key of the cache and of the single flight.
unfoldable pub scoped_key : QuoteRequest → Text
scoped_key req =
    if is_empty req.client_id
    then req.request_id
    else req.client_id ++ (bytes ":" ++ req.request_id)
