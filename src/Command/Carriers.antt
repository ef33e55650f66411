-- ===== src/Command/Carriers.antt =====
-- The carriers of main.go: `buildCarriers`, and the one that DELTA_BASE_URL adds.
use carrier_gateway.Prelude.{ℤ, pos, Text, bytes, is_empty, List, [], ◌∷◌, ◌++◌, if◌then◌else◌}
use carrier_gateway.Domain.{
  Carrier, CarrierConfig, coverage_line_auto, coverage_line_homeowners, coverage_line_umbrella,
}
use carrier_gateway.Float.{FloatOps}

module _ {F : Type 0} (o : FloatOps F) where
  -- What the four configurations share, and where they differ.
  abbrev pub demo_config : ℤ → ℤ → ℤ → ℤ → CarrierConfig F
  demo_config timeout_hint priority tokens_per_second burst = record {
    timeout_hint = timeout_hint;
    open_timeout = pos 30000000000;
    failure_threshold = pos 5;
    success_threshold = pos 2;
    hedge_multiplier = o.ratio 3 2;
    ema_alpha = o.ratio 1 10;
    ema_window_size = pos 19;
    ema_warmup_observations = pos 10;
    rate_limit = record { tokens_per_second = o.of_int tokens_per_second; burst = burst };
    priority = priority;
  }

  abbrev pub alpha_carrier : Carrier F
  alpha_carrier = record {
    id = bytes "alpha";
    name = bytes "Alpha Insurance";
    capabilities = coverage_line_auto ∷ coverage_line_homeowners ∷ [];
    config = demo_config (pos 100000000) (pos 1) (pos 100) (pos 10);
  }

  abbrev pub beta_carrier : Carrier F
  beta_carrier = record {
    id = bytes "beta";
    name = bytes "Beta Insurance";
    capabilities = coverage_line_auto ∷ coverage_line_umbrella ∷ [];
    config = demo_config (pos 400000000) (pos 2) (pos 50) (pos 5);
  }

  abbrev pub gamma_carrier : Carrier F
  gamma_carrier = record {
    id = bytes "gamma";
    name = bytes "Gamma Insurance";
    capabilities = coverage_line_auto ∷ coverage_line_homeowners ∷ coverage_line_umbrella ∷ [];
    config = demo_config (pos 1600000000) (pos 3) (pos 20) (pos 2);
  }

  unfoldable pub build_carriers : List (Carrier F)
  build_carriers = alpha_carrier ∷ beta_carrier ∷ gamma_carrier ∷ []

  abbrev pub delta_carrier : Carrier F
  delta_carrier = record {
    id = bytes "delta";
    name = bytes "Delta Insurance";
    capabilities = coverage_line_auto ∷ coverage_line_homeowners ∷ [];
    config = demo_config (pos 300000000) (pos 4) (pos 50) (pos 5);
  }

  -- The carriers at a value of DELTA_BASE_URL.
  unfoldable pub carriers_at : Text → List (Carrier F)
  unfolding build_carriers
  carriers_at base_url =
      if is_empty base_url then build_carriers else build_carriers ++ delta_carrier ∷ []
