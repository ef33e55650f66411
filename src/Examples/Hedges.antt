-- ===== src/Examples/Hedges.antt =====
-- Hedging at concrete inputs.
use carrier_gateway.Prelude.{ℕ, ℤ, pos, Text, bytes, true, Option, none, some, List, [], ◌∷◌, ◌+ℤ◌}
use carrier_gateway.Ports.{CbState, cb_closed, cb_open}
use carrier_gateway.Hedging.{HedgeCarrier, Pending, select_hedge_candidate, hedge_monitor}
use carrier_gateway.Hedging.Choice.{IsChosen, select_is_best}
use carrier_gateway.Hedging.Once.{IsSound, hedges_once}
use carrier_gateway.Examples.{fixed_point, fixed_point_laws, clock_env}
use carrier_gateway.Examples.Trackers.{config}

abbrev candidate : Text → ℕ → CbState → HedgeCarrier ℕ ℤ
candidate id p95 st = record {
  carrier = record { id = id; name = id; capabilities = bytes "auto" ∷ []; config = config };
  p95_ms = p95;
  try_acquire = λ w. (w, true);
  cb_state = λ w. st;
}

-- The fastest has an open circuit.
abbrev candidates : List (HedgeCarrier ℕ ℤ)
candidates =
    candidate (bytes "alpha") 200000 cb_closed
    ∷ candidate (bytes "beta") 100000 cb_open
    ∷ candidate (bytes "gamma") 150000 cb_closed
    ∷ []

select_is_best_example :
    IsChosen fixed_point fixed_point_laws
      (bytes "alpha")
      (pos 7)
      candidates
      (select_hedge_candidate fixed_point (bytes "alpha") (pos 7) candidates)
select_is_best_example =
    select_is_best fixed_point fixed_point_laws (bytes "alpha") (pos 7) candidates

abbrev pending : List (Text × Pending ℕ)
pending = (bytes "alpha", record { start_time = pos 0; hedge_threshold = 300000 }) ∷ []

abbrev wakes : List (Option (ℤ → ℤ))
wakes = some (λ w. w +ℤ pos 200000000) ∷ some (λ w. w +ℤ pos 200000000) ∷ none ∷ []

hedges_once_example : IsSound (
    hedge_monitor fixed_point clock_env candidates pending wakes
      (record { already_hedged = []; fired = []; world = pos 0 }))
hedges_once_example =
    hedges_once fixed_point fixed_point_laws clock_env candidates pending wakes (pos 0)
