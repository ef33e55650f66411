-- ===== src/Hedging/Keeps.antt =====
-- hedging.go: the monitor touches the rest of the process only through the candidates' limiters and
-- the recorder, and while it sleeps.
use mathlib.Core.Path.{subst}
use carrier_gateway.Prelude.{
  ℤ, ◌-ℤ◌, Text, Bool, true, false, Option, none, some, List, [], ◌∷◌, All, ◌≡◌, Bool-cases,
  Option-cases, inl, inr, ◌⊎◌, arith, if◌then◌else◌,
}
use carrier_gateway.Prelude.Maps.{member}
use carrier_gateway.Float.{FloatOps}
use carrier_gateway.Tracker.{millisecond}
use carrier_gateway.Ports.{Metric, Env}
use carrier_gateway.Hedging.{
  Pending, HedgeCarrier, Monitor, select_hedge_candidate, select_from, consider, fire, visit, scan,
  hedge_monitor,
}

-- What holds of a value that may be missing.
abbrev pub IfSome : {A : Type 0} → (A → Type 0) → Option A → Type 0
IfSome Q none = Unit
IfSome Q (some x) = Q x

pub IfSome-unless :
    {A : Type 0} (Q : A → Type 0) (b : Bool) (x : A) → Q x → IfSome Q (if b then none else some x)
IfSome-unless Q true x h = tt
IfSome-unless Q false x h = h

-- Whom a round of the search leaves as the best.
pub consider_cases :
    {F W : Type 0} (o : FloatOps F) (exclude : Text) (w : W) (best : Option (HedgeCarrier F W))
    (c : HedgeCarrier F W)
    → (consider o exclude w best c ≡ best) ⊎ (consider o exclude w best c ≡ some c)
unfolding consider
consider_cases o exclude w none c = ground arith
consider_cases o exclude w (some b) c = ground arith

module _ {F W : Type 0} (o : FloatOps F) (env : Env F W) (eligible : List (HedgeCarrier F W))
    (P : W → Type 0) (recorder : (m : Metric F) (w : W) → P w → P (env.record_metric m w)) where
  abbrev pub Acquires : HedgeCarrier F W → Type 0
  Acquires c = (w : W) → P w → P (c.try_acquire w).0

  abbrev pub Wakes : Option (W → W) → Type 0
  Wakes none = Unit
  Wakes (some wake) = (w : W) → P w → P (wake w)

  consider-keeps :
      (exclude : Text) (w : W) (best : Option (HedgeCarrier F W)) (c : HedgeCarrier F W)
      → IfSome Acquires best
      → Acquires c
      → IfSome Acquires (consider o exclude w best c)
  consider-keeps exclude w best c hb hc = elim (consider_cases o exclude w best c) [
    | inl e ↦ rw e hb
    | inr e ↦ rw e hc
  ]

  select-keeps :
      (exclude : Text) (w : W) (best : Option (HedgeCarrier F W)) (cs : List (HedgeCarrier F W))
      → IfSome Acquires best
      → All Acquires cs
      → IfSome Acquires (select_from o exclude w best cs)
  unfolding select_from
  select-keeps exclude w best [] hb hc = hb
  select-keeps exclude w best (c ∷ cs) hb hc =
      select-keeps exclude w (consider o exclude w best c) cs
        (consider-keeps exclude w best c hb hc.0) hc.1

  module _ (acquires : All Acquires eligible) where
    fire-keeps :
        (id : Text) (c : HedgeCarrier F W) (m : Monitor W)
        → Acquires c
        → P m.world
        → P (fire o env eligible id c m).world
    unfolding fire
    fire-keeps id c m hc h = elim (Bool-cases (c.try_acquire m.world).1) [
      | inl e ↦ rw (e, fire) (recorder _ _ (hc m.world h))
      | inr e ↦ rw (e, fire) (hc m.world h)
    ]

    visit-keeps :
        (now : ℤ) (id : Text) (p : Pending F) (m : Monitor W)
        → P m.world
        → P (visit o env eligible now id p m).world
    unfolding visit select_hedge_candidate
    visit-keeps now id p m h =
        elim (Bool-cases (
          o.lt (o.div (o.of_int (now -ℤ p.start_time)) (o.of_int millisecond)) p.hedge_threshold)) [
            | inl early ↦ rw (early, visit) h
            | inr late ↦ elim (Option-cases (select_hedge_candidate o id m.world eligible)) [
              | inl e ↦ rw (late, visit) (rw (e, visit) h)
              | inr (c, e) ↦
                  rw (late, visit)
                    (rw (e, visit)
                      (fire-keeps id c m
                        (subst (IfSome Acquires) e
                          (select-keeps id m.world none eligible tt acquires))
                        h))
            ]
          ]

    scan-keeps :
        (now : ℤ) (ps : List (Text × Pending F)) (m : Monitor W) (b : Bool)
        → P m.world
        → P (scan o env eligible now ps m b).0.world
    unfolding scan
    scan-keeps now [] m b h = h
    scan-keeps now ((id, p) ∷ ps) m b h = elim (Bool-cases (member id m.already_hedged)) [
      | inl e ↦ rw (e, scan) (scan-keeps now ps m b h)
      | inr e ↦
          rw (e, scan)
            (scan-keeps now ps (visit o env eligible now id p m) false (visit-keeps now id p m h))
    ]

    -- What the limiters, the recorder and everybody else keep while the monitor runs, it keeps.
    pub monitor-keeps :
        (pending : List (Text × Pending F)) (wakes : List (Option (W → W))) (m : Monitor W)
        → All Wakes wakes
        → P m.world
        → P (hedge_monitor o env eligible pending wakes m).world
    unfolding hedge_monitor
    monitor-keeps pending [] m hw h = h
    monitor-keeps pending (none ∷ wakes) m hw h = h
    monitor-keeps pending (some wake ∷ wakes) m hw h =
        let w = wake m.world in
        let h' = scan-keeps (env.now w) pending (record m { world = w }) true (hw.0 m.world h) in
        elim (Bool-cases
          (scan o env eligible (env.now w) pending (record m { world = w }) true).1) [
            | inl e ↦ rw (e, hedge_monitor) h'
            | inr e ↦ rw (e, hedge_monitor) (monitor-keeps pending wakes _ hw.1 h')
          ]
