-- ===== src/Examples/Trackers.antt =====
-- Moving averages at concrete inputs.
use carrier_gateway.Prelude.{ℕ, ℤ, pos, ◌≡◌, List, [], ◌∷◌, total}
use carrier_gateway.Domain.{CarrierConfig}
use carrier_gateway.Tracker.{EmaState}
use carrier_gateway.Tracker.Swaps.{run, in_turn, committed}
use carrier_gateway.Tracker.Linear.{start, weigh, sum_of, record_linearises}
use carrier_gateway.Examples.{fixed_point}

-- alpha 0.1, multiplier 1.5, two observations to warm up
abbrev pub config : CarrierConfig ℕ
config = record {
  timeout_hint = pos 100000000;
  open_timeout = pos 30000000000;
  failure_threshold = pos 5;
  success_threshold = pos 2;
  hedge_multiplier = 1500;
  ema_alpha = 100;
  ema_window_size = pos 0;
  ema_warmup_observations = pos 2;
  rate_limit = record { tokens_per_second = 100000; burst = pos 10 };
  priority = pos 1;
}

abbrev latencies : List ℤ
latencies = pos 90000000 ∷ pos 110000000 ∷ []

abbrev state : EmaState ℕ
state = record { p95 = 200000; observations = pos 0 }

-- The second goroutine's swap comes between the first one's load and swap, which then fails.
abbrev turns : List ℕ
turns = 0 ∷ 1 ∷ 1 ∷ 0 ∷ 0 ∷ 0 ∷ []

record_linearises_example :
    let t = run fixed_point 100 (start fixed_point 100 state latencies) turns in
    (t.cell.value
      ≡ in_turn fixed_point 100
          (committed fixed_point 100 (start fixed_point 100 state latencies) turns)
          state)
    × (total (weigh fixed_point 100 (λ l. 1)) t.pcs
        ≡ sum_of fixed_point 100
            (λ l. 1)
            (committed fixed_point 100 (start fixed_point 100 state latencies) turns))
record_linearises_example = record_linearises fixed_point 100 state latencies turns (λ l. 1)
