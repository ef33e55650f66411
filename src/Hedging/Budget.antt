-- ===== src/Hedging/Budget.antt =====
-- hedging.go, hedgeMonitor: how many goroutines it starts, and for whom.
use mathlib.Core.Path.{subst}
use carrier_gateway.Prelude.{
  ℕ, suc, ◌+◌, ◌≤◌, ℤ, ◌-ℤ◌, ◌≡◌, sym, ap, ◌∙◌, Text, text_eq, text_eq_iff, text_eq_refl, Bool,
  true, false, Option, none, some, List, [], ◌∷◌, All, length, map, total, Bool-cases, Option-cases,
  inl, inr, arith, if◌then◌else◌,
}
use carrier_gateway.Prelude.Maps.{member}
use carrier_gateway.Float.{FloatOps}
use carrier_gateway.Tracker.{millisecond}
use carrier_gateway.Ports.{Env}
use carrier_gateway.Hedging.{
  Pending, HedgeCarrier, Monitor, select_hedge_candidate, select_from, consider, fire, visit, scan,
  hedge_monitor,
}
use carrier_gateway.Hedging.Keeps.{IfSome, consider_cases}

-- The pending carriers that are not in the list, each as often as it is pending.
abbrev pub unhedged : {F : Type 0} → List Text → List (Text × Pending F) → ℕ
unhedged hedged = total (λ p. if member p.0 hedged then 0 else 1)

unhedged-cons :
    {F : Type 0} (id : Text) (hedged : List Text) (ps : List (Text × Pending F))
    → unhedged (id ∷ hedged) ps ≤ unhedged hedged ps
unfolding member
unhedged-cons id hedged [] = omega arith
unhedged-cons id hedged (p ∷ ps) = ground (arith, unhedged-cons id hedged ps)

-- One that is pending and new.
unhedged-new :
    {F : Type 0} (id : Text) (hedged : List Text) (ps : List (Text × Pending F))
    → member id hedged ≡ false
    → member id (map (λ p. p.0) ps) ≡ true
    → suc (unhedged (id ∷ hedged) ps) ≤ unhedged hedged ps
unfolding member
unhedged-new id hedged [] fresh there = absurd (ground arith)
unhedged-new id hedged (p ∷ ps) fresh there = elim (Bool-cases (text_eq p.0 id)) [
  | inl e ↦
      let same : p.0 ≡ id = (text_eq_iff p.0 id).0 e in
      let fresh' : member p.0 hedged ≡ false = ap (λ t. member t hedged) same ∙ fresh in
      let here : text_eq id p.0 ≡ true = (text_eq_iff id p.0).1 (sym same) in
      ground (arith, unhedged-cons id hedged ps)
  | inr e ↦ ground (arith, text_eq_iff id p.0, text_eq_iff p.0 id, unhedged-new id hedged ps fresh)
]

module _ {F W : Type 0} (o : FloatOps F) (env : Env F W) (eligible : List (HedgeCarrier F W))
    (pending : List (Text × Pending F)) where
  abbrev pub candidates : List Text
  candidates = map (λ c. c.carrier.id) eligible

  -- No more goroutines than pending carriers that have been hedged, each for a candidate.
  pub record IsWithin (m : Monitor W) : Type 0 where
    pub budget : length m.fired + unhedged m.already_hedged pending ≤ length pending
    pub known : All (λ f. member f.candidate candidates ≡ true) m.fired

  abbrev IsKnown : HedgeCarrier F W → Type 0
  IsKnown c = member c.carrier.id candidates ≡ true

  select-IsKnown :
      (exclude : Text) (w : W) (best : Option (HedgeCarrier F W)) (cs : List (HedgeCarrier F W))
      → IfSome IsKnown best
      → All IsKnown cs
      → IfSome IsKnown (select_from o exclude w best cs)
  unfolding select_from
  select-IsKnown exclude w best [] hb hc = hb
  select-IsKnown exclude w best (c ∷ cs) hb hc =
      select-IsKnown exclude w (consider o exclude w best c) cs
        (elim (consider_cases o exclude w best c) [ inl e ↦ rw e hb | inr e ↦ rw e hc.0 ]) hc.1

  fire-IsWithin :
      (id : Text) (c : HedgeCarrier F W) (m : Monitor W)
      → member id m.already_hedged ≡ false
      → member id (map (λ p. p.0) pending) ≡ true
      → IsKnown c
      → IsWithin m
      → IsWithin (fire o env eligible id c m)
  unfolding fire
  fire-IsWithin id c m fresh there hc h = elim (Bool-cases (c.try_acquire m.world).1) [
    | inl e ↦
        rw (e, fire)
          (record {
            budget = omega (arith, h.budget, unhedged-new id m.already_hedged pending fresh there);
            known = (hc, h.known);
          })
    | inr e ↦ rw (e, fire) (record { budget = h.budget; known = h.known })
  ]

  module _ (all_known : All IsKnown eligible) where
    visit-IsWithin :
        (now : ℤ) (id : Text) (p : Pending F) (m : Monitor W)
        → member id m.already_hedged ≡ false
        → member id (map (λ p. p.0) pending) ≡ true
        → IsWithin m
        → IsWithin (visit o env eligible now id p m)
    unfolding visit select_hedge_candidate
    visit-IsWithin now id p m fresh there h =
        elim (Bool-cases (
          o.lt (o.div (o.of_int (now -ℤ p.start_time)) (o.of_int millisecond)) p.hedge_threshold)) [
            | inl early ↦ rw (early, visit) h
            | inr late ↦ elim (Option-cases (select_hedge_candidate o id m.world eligible)) [
              | inl e ↦ rw (late, visit) (rw (e, visit) h)
              | inr (c, e) ↦
                  rw (late, visit)
                    (rw (e, visit)
                      (fire-IsWithin id c m fresh there
                        (subst (IfSome IsKnown) e
                          (select-IsKnown id m.world none eligible tt all_known))
                        h))
            ]
          ]

    scan-IsWithin :
        (now : ℤ) (ps : List (Text × Pending F)) (m : Monitor W) (b : Bool)
        → All (λ p. member p.0 (map (λ q. q.0) pending) ≡ true) ps
        → IsWithin m
        → IsWithin (scan o env eligible now ps m b).0
    unfolding scan
    scan-IsWithin now [] m b there h = h
    scan-IsWithin now ((id, p) ∷ ps) m b there h = elim (Bool-cases (member id m.already_hedged)) [
      | inl e ↦ rw (e, scan) (scan-IsWithin now ps m b there.1 h)
      | inr e ↦
          rw (e, scan)
            (scan-IsWithin now ps (visit o env eligible now id p m) false there.1
              (visit-IsWithin now id p m e there.0 h))
    ]

    monitor-IsWithin :
        (wakes : List (Option (W → W))) (m : Monitor W)
        → All (λ p. member p.0 (map (λ q. q.0) pending) ≡ true) pending
        → IsWithin m
        → IsWithin (hedge_monitor o env eligible pending wakes m)
    unfolding hedge_monitor
    monitor-IsWithin [] m there h = h
    monitor-IsWithin (none ∷ wakes) m there h = h
    monitor-IsWithin (some wake ∷ wakes) m there h =
        let w = wake m.world in
        let h' =
          scan-IsWithin (env.now w) pending (record m { world = w }) true there
            (record { budget = h.budget; known = h.known }) in
        elim (Bool-cases
          (scan o env eligible (env.now w) pending (record m { world = w }) true).1) [
            | inl e ↦ rw (e, hedge_monitor) h'
            | inr e ↦ rw (e, hedge_monitor) (monitor-IsWithin wakes _ there h')
          ]

-- Everything on a list stands on it, by its name.
pub named-All :
    {A : Type 0} (name : A → Text) (xs zs : List A)
    → ((y : Text) → member y (map name xs) ≡ true → member y (map name zs) ≡ true)
    → All (λ x. member (name x) (map name zs) ≡ true) xs
unfolding member
named-All name [] zs f = tt
named-All name (x ∷ xs) zs f =
    (f (name x) (rw (text_eq_refl (name x))), named-All name xs zs (λ y h. f y (ground arith)))

unhedged-none : {F : Type 0} (ps : List (Text × Pending F)) → unhedged [] ps ≤ length ps
unfolding member
unhedged-none [] = omega arith
unhedged-none (p ∷ ps) = omega (arith, unhedged-none ps)

-- The monitor starts at most one goroutine for each pending carrier, and each asks a candidate.
pub monitor_budget :
    {F W : Type 0} (o : FloatOps F) (env : Env F W) (eligible : List (HedgeCarrier F W))
    (pending : List (Text × Pending F)) (wakes : List (Option (W → W))) (w : W)
    → IsWithin o env eligible pending (
        hedge_monitor o env eligible pending wakes
          (record { already_hedged = []; fired = []; world = w }))
monitor_budget o env eligible pending wakes w =
    let m : Monitor _ = record { already_hedged = []; fired = []; world = w } in
    monitor-IsWithin o env eligible pending
      (named-All (λ c. c.carrier.id) eligible eligible (λ y h. h)) wakes m
      (named-All (λ p. p.0) pending pending (λ y h. h))
      (record { budget = omega (arith, unhedged-none pending); known = tt })
