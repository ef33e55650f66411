-- ===== src/Command/Program.antt =====
-- The orchestrator of main.go at a value of DELTA_BASE_URL.
use carrier_gateway.Prelude.{◌≡◌, refl, bytes, some, text_eq, ℤ, Text, List, [], ◌∷◌, All, arith}
use carrier_gateway.Prelude.Maps.{lookup, insert}
use carrier_gateway.Float.{FloatOps}
use carrier_gateway.Limiter.{TokenBucket}
use carrier_gateway.Orchestrator.State.{Gateway}
use carrier_gateway.Orchestrator.Eligible.{filter_eligible}
use carrier_gateway.Orchestrator.Equipped.{Has, Equipped}
use carrier_gateway.Command.Carriers.{carriers_at, build_carriers}
use carrier_gateway.Command.Assembly.{Adapters, registry_at, empty_gateway, equip_all}
use carrier_gateway.Orchestrator.Serving.{ids}
use carrier_gateway.Command.Start.{Chosen, equip_all-equips, start-eligible}

found-Has : {V : Type 0} (k : Text) (v : V) (m : List (Text × V)) → lookup k m ≡ some v → Has k m
found-Has k v m e n = absurd (ground arith)

-- Every carrier has an adapter.
registry-Has :
    {F W : Type 0} (o : FloatOps F) (a : Adapters W) (base_url : Text)
    → All (λ c. Has c (registry_at a base_url)) (ids (carriers_at o base_url))
unfolding registry_at carriers_at build_carriers insert lookup text_eq
registry-Has o a [] = (
  found-Has (bytes "alpha") a.alpha (registry_at a []) refl,
  (
    found-Has (bytes "beta") a.beta (registry_at a []) refl,
    (found-Has (bytes "gamma") a.gamma (registry_at a []) refl, tt),
  ),
)
registry-Has o a (b ∷ s) = (
  found-Has (bytes "alpha") a.alpha (registry_at a (b ∷ s)) refl,
  (
    found-Has (bytes "beta") a.beta (registry_at a (b ∷ s)) refl,
    (
      found-Has (bytes "gamma") a.gamma (registry_at a (b ∷ s)) refl,
      (found-Has (bytes "delta") a.delta (registry_at a (b ∷ s)) refl, tt),
    ),
  ),
)

module _ {F B : Type 0} (o : FloatOps F) (tb : TokenBucket F B (Gateway F B)) where
  -- What main.go starts with.
  abbrev pub start_gateway : Text → ℤ → Gateway F B
  start_gateway base_url clock = equip_all o tb (carriers_at o base_url) (empty_gateway B clock)

  -- With or without a DELTA_BASE_URL, every carrier of the started program has an adapter, a breaker,
  -- a limiter and a tracker, and the eligible carriers of a request are those that have one of its lines among
  -- their capabilities, in their order.
  pub program-equips :
      (a : Adapters (Gateway F B)) (base_url : Text) (clock : ℤ) (lines : List Text)
      → All (λ c. Has c (registry_at a base_url)) (ids (carriers_at o base_url))
        × (All (Equipped (start_gateway base_url clock)) (ids (carriers_at o base_url))
            × Chosen lines (carriers_at o base_url) (
                filter_eligible
                  (start_gateway base_url clock).breakers
                  lines
                  (carriers_at o base_url)))
  program-equips a base_url clock lines = (
    registry-Has o a base_url,
    (
      equip_all-equips o tb (carriers_at o base_url) (empty_gateway B clock),
      start-eligible o tb (carriers_at o base_url) (empty_gateway B clock) lines tt,
    ),
  )
