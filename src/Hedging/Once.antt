-- ===== src/Hedging/Once.antt =====
-- hedging.go, hedgeMonitor: how often a slow carrier is hedged, and by whom.
use mathlib.Core.Path.{subst}
use carrier_gateway.Prelude.{
  ℤ, ◌≡◌, refl, ap, Text, text_eq, Bool, true, false, Option, none, some, List, [], ◌∷◌, arith, map,
  Bool-cases, Option-cases, inl, inr, All, not, ◌&&◌, ◌-ℤ◌,
}
use carrier_gateway.Prelude.Maps.{member}
use carrier_gateway.Float.{FloatOps, FloatLaws}
use carrier_gateway.Tracker.{millisecond}
use carrier_gateway.Ports.{Env}
use carrier_gateway.Hedging.{
  Pending, HedgeCarrier, Fired, Monitor, select_hedge_candidate, fire, visit, scan, hedge_monitor,
}
use carrier_gateway.Hedging.Choice.{IsChosen, select_is_best}

-- From a test that neither `a` nor `b` passes.
not_of_and : (a b : Bool) → (not a && not b) ≡ true → a ≡ false
not_of_and a b h = ground arith

-- No text stands twice in the list.
abbrev pub AllDistinct : List Text → Type 0
AllDistinct [] = Unit
AllDistinct (t ∷ ts) = (member t ts ≡ false) × AllDistinct ts

abbrev pub triggers : List Fired → List Text
triggers = map (λ f. f.trigger)

-- The hedges that were fired are those of the carriers marked as hedged, one for each, and none
-- goes to the slow carrier itself.
pub record IsSound {W : Type 0} (m : Monitor W) : Type 0 where
  pub matched : triggers m.fired ≡ m.already_hedged
  pub distinct : AllDistinct m.already_hedged
  pub others : All (λ f. text_eq f.candidate f.trigger ≡ false) m.fired

module _ {F W : Type 0} (o : FloatOps F) (laws : FloatLaws F o) (env : Env F W)
    (eligible : List (HedgeCarrier F W)) where
  fire-IsSound :
      (id : Text) (c : HedgeCarrier F W) (m : Monitor W)
      → member id m.already_hedged ≡ false
      → text_eq c.carrier.id id ≡ false
      → IsSound m
      → IsSound (fire o env eligible id c m)
  unfolding fire
  fire-IsSound id c m fresh other s = elim (Bool-cases (c.try_acquire m.world).1) [
    | inl e ↦
        rw (e, fire)
          (record {
            matched = ap (◌∷◌ id) s.matched;
            distinct = (fresh, s.distinct);
            others = (other, s.others);
          })
    | inr e ↦
        rw (e, fire) (record { matched = s.matched; distinct = s.distinct; others = s.others })
  ]

  select-other :
      (id : Text) (w : W) (c : HedgeCarrier F W)
      → select_hedge_candidate o id w eligible ≡ some c
      → text_eq c.carrier.id id ≡ false
  select-other id w c e =
      let chosen = subst (IsChosen o laws id w eligible) e (select_is_best o laws id w eligible) in
      not_of_and (text_eq c.carrier.id id) _ chosen.1

  visit-IsSound :
      (now : ℤ) (id : Text) (p : Pending F) (m : Monitor W)
      → member id m.already_hedged ≡ false
      → IsSound m
      → IsSound (visit o env eligible now id p m)
  unfolding visit
  visit-IsSound now id p m fresh s =
      elim (Bool-cases
        (o.lt (o.div (o.of_int (now -ℤ p.start_time)) (o.of_int millisecond)) p.hedge_threshold)) [
          | inl early ↦ rw (early, visit) s
          | inr late ↦ elim (Option-cases (select_hedge_candidate o id m.world eligible)) [
            | inl e ↦ rw (late, visit) (rw (e, visit) s)
            | inr (c, e) ↦
                rw (late, visit)
                  (rw (e, visit) (fire-IsSound id c m fresh (select-other id m.world c e) s))
          ]
        ]

  scan-IsSound :
      (now : ℤ) (ps : List (Text × Pending F)) (m : Monitor W) (all_resolved : Bool)
      → IsSound m
      → IsSound (scan o env eligible now ps m all_resolved).0
  unfolding scan
  scan-IsSound now [] m all_resolved s = s
  scan-IsSound now ((id, p) ∷ ps) m all_resolved s =
      elim (Bool-cases (member id m.already_hedged)) [
        | inl e ↦ rw (e, scan) (scan-IsSound now ps m all_resolved s)
        | inr e ↦
            rw (e, scan)
              (scan-IsSound now ps (visit o env eligible now id p m) false
                (visit-IsSound now id p m e s))
      ]

  monitor-IsSound :
      (pending : List (Text × Pending F)) (wakes : List (Option (W → W))) (m : Monitor W)
      → IsSound m
      → IsSound (hedge_monitor o env eligible pending wakes m)
  unfolding hedge_monitor
  monitor-IsSound pending [] m s = s
  monitor-IsSound pending (none ∷ wakes) m s = s
  monitor-IsSound pending (some wake ∷ wakes) m s =
      let w = wake m.world in
      let m' = (scan o env eligible (env.now w) pending (record m { world = w }) true).0 in
      let s' =
        scan-IsSound (env.now w) pending (record m { world = w }) true
          (record { matched = s.matched; distinct = s.distinct; others = s.others }) in
      elim (Bool-cases (scan o env eligible (env.now w) pending (record m { world = w }) true).1) [
        | inl e ↦ rw (e, hedge_monitor) s'
        | inr e ↦ rw (e, hedge_monitor) (monitor-IsSound pending wakes m' s')
      ]

  -- However often the monitor wakes, and whatever happens in between, it hedges each slow carrier
  -- at most once and never with that carrier itself, and it remembers exactly those it hedged.
  pub hedges_once :
      (pending : List (Text × Pending F)) (wakes : List (Option (W → W))) (w : W)
      → IsSound (
          hedge_monitor o env eligible pending wakes
            (record { already_hedged = []; fired = []; world = w }))
  hedges_once pending wakes w =
      monitor-IsSound pending wakes _ (record { matched = refl; distinct = tt; others = tt })
