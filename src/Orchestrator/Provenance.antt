-- ===== src/Orchestrator/Provenance.antt =====
-- orchestrator.go: a fan-out from its first call to its answer.
use carrier_gateway.Prelude.{
  All-perm, Perm-length, ℕ, ◌+◌, ◌*◌, ◌≡◌, refl, ap, Text, text_eq, true, ◌||◌, Option, none, some,
  List, [], ◌∷◌, reverse, map, All, length, length-append, length-reverse, reverse-All,
  Option-cases, inl, inr, arith,
}
use carrier_gateway.Prelude.Maps.{lookup, member}
use carrier_gateway.Domain.{Carrier, Context, QuoteRequest}
use carrier_gateway.Float.{FloatOps}
use carrier_gateway.Limiter.{TokenBucket}
use carrier_gateway.Tracker.{hedge_threshold}
use carrier_gateway.Hedging.{HedgeCarrier, Pending, Monitor, hedge_monitor}
use carrier_gateway.Hedging.Keeps.{IfSome, monitor-keeps}
use carrier_gateway.Hedging.Budget.{monitor_budget, named-All}
use carrier_gateway.Orchestrator.State.{Gateway, gateway_env, Orchestrator}
use carrier_gateway.Orchestrator.Contained.{All-split}
use carrier_gateway.Orchestrator.Channel.{Holds-same}
use carrier_gateway.Orchestrator.Serving.{ids, All-map}
use carrier_gateway.Orchestrator.Launch.{
  Schedule, acquire_token, hedgeable, pending_carriers, call_all, deliver_all, hedge_context,
  hedge_all, run_calls,
}
use carrier_gateway.Orchestrator.Vouched.{
  Quiet, IsVouched, IfSome-then, Sent, Sent-up, Sent-up?, call_all-Sent, deliver_all-Sent,
}

module _ {F B : Type 0} (o : FloatOps F) (tb : TokenBucket F B (Gateway F B))
    (orch : Orchestrator F B) where
  acquire-channel : (k : Text) (g : Gateway F B) → (acquire_token o tb k g).0.channel ≡ g.channel
  unfolding acquire_token
  acquire-channel k g = elim (Option-cases (lookup k g.limiters)) [
    | inl e ↦ rw (e, acquire_token) refl
    | inr (l, e) ↦ rw (e, acquire_token) refl
  ]

  acquires-channel :
      (g : Gateway F B) (cs : List (Carrier F))
      → All
          (λ (c : HedgeCarrier F (Gateway F B)).
            (w : Gateway F B) → (c.try_acquire w).0.channel ≡ w.channel)
          (hedgeable o tb orch g cs)
  unfolding hedgeable
  acquires-channel g [] = tt
  acquires-channel g (c ∷ cs) = elim (Option-cases (lookup c.id orch.registry)) [
    | inl e ↦ rw (e, hedgeable) (acquires-channel g cs)
    | inr (exec, e) ↦ elim (Option-cases (lookup c.id g.trackers)) [
      | inl e' ↦ rw (e, hedgeable) (rw (e', hedgeable) (acquires-channel g cs))
      | inr (t, e') ↦
          rw (e, hedgeable)
            (rw (e', hedgeable) ((λ w. acquire-channel c.id w), acquires-channel g cs))
    ]
  ]

  abbrev names : List (HedgeCarrier F (Gateway F B)) → List Text
  names = map (λ c. c.carrier.id)

  -- A candidate is one of the carriers.
  candidates-listed :
      (y : Text) (g : Gateway F B) (cs : List (Carrier F))
      → member y (names (hedgeable o tb orch g cs)) ≡ true
      → member y (ids cs) ≡ true
  unfolding hedgeable member
  candidates-listed y g [] h = absurd (ground arith)
  candidates-listed y g (c ∷ cs) h = elim (Option-cases (lookup c.id orch.registry)) [
    | inl e ↦
        let h' : member y (names (hedgeable o tb orch g cs)) ≡ true = rw (e, hedgeable) at h in
        ground (arith, candidates-listed y g cs h')
    | inr (exec, e) ↦ elim (Option-cases (lookup c.id g.trackers)) [
      | inl e' ↦
          let h' : member y (names (hedgeable o tb orch g cs)) ≡ true =
            rw (e', hedgeable) at (rw (e, hedgeable) at h) in
          ground (arith, candidates-listed y g cs h')
      | inr (t, e') ↦
          let h' : (text_eq c.id y || member y (names (hedgeable o tb orch g cs))) ≡ true =
            rw (e', hedgeable) at (rw (e, hedgeable) at h) in
          ground (arith, candidates-listed y g cs)
    ]
  ]

  pending-length :
      (g : Gateway F B) (cs : List (Carrier F)) (ps : List (Text × Pending F))
      → pending_carriers o tb g cs ≡ some ps
      → length ps ≡ length cs
  unfolding pending_carriers
  pending-length g [] [] h = refl
  pending-length g [] (p ∷ ps) h = absurd (ground arith)
  pending-length g (c ∷ cs) ps h = elim (Option-cases (lookup c.id g.trackers)) [
    | inl e ↦ let h' : none ≡ some ps = rw (e, pending_carriers) at h in absurd (ground arith)
    | inr (t, e) ↦ elim (Option-cases (pending_carriers o tb g cs)) [
      | inl f ↦
          let h' : none ≡ some ps = rw (f, pending_carriers) at (rw (e, pending_carriers) at h) in
          absurd (ground arith)
      | inr (rest, f) ↦
          let p : Text × Pending F =
            (c.id, record { start_time = g.clock; hedge_threshold = hedge_threshold o t }) in
          let h' : some (p ∷ rest) ≡ some ps =
            rw (f, pending_carriers) at (rw (e, pending_carriers) at h) in
          let same : p ∷ rest ≡ ps = cc in
          omega (arith, ap (λ x. length x) same, pending-length g cs rest f)
    ]
  ]

  module _ (sched : Schedule F B) (quiet : Quiet tb orch sched) (req : QuoteRequest)
      (eligible : List (Carrier F)) where
    -- How many results of the adapters of the eligible carriers have been sent.
    abbrev pub HasSent : ℕ → Gateway F B → Type 0
    HasSent = Sent o tb orch sched quiet (ids eligible) req

    wakes-HasSent :
        (n : ℕ) (ws : List (Option (Gateway F B → Gateway F B)))
        → All
            (λ w.
              (f : Gateway F B → Gateway F B)
              → w ≡ some f
              → (g : Gateway F B) → (f g).channel ≡ g.channel)
            ws
        → All (λ w. IfSome (λ f. (g : Gateway F B) → HasSent n g → HasSent n (f g)) w) ws
    wakes-HasSent n [] h = tt
    wakes-HasSent n (none ∷ ws) h = (tt, wakes-HasSent n ws h.1)
    wakes-HasSent n (some f ∷ ws) h = (
      (λ g x. Holds-same o tb (IsVouched orch (ids eligible) req) n g (f g) (h.0 f refl g) x),
      wakes-HasSent n ws h.1,
    )

    acquires-HasSent :
        (n : ℕ) (cs : List (HedgeCarrier F (Gateway F B)))
        → All
            (λ (c : HedgeCarrier F (Gateway F B)).
              (w : Gateway F B) → (c.try_acquire w).0.channel ≡ w.channel)
            cs
        → All
            (λ (c : HedgeCarrier F (Gateway F B)).
              (w : Gateway F B) → HasSent n w → HasSent n (c.try_acquire w).0)
            cs
    acquires-HasSent n [] h = tt
    acquires-HasSent n (c ∷ cs) h = (
      (λ w x.
          Holds-same o tb (IsVouched orch (ids eligible) req) n w (c.try_acquire w).0 (h.0 w) x),
      acquires-HasSent n cs h.1,
    )

    hedge_all-HasSent :
        (ctx : Context (Gateway F B)) (pending : List (Text × Pending F)) (n : ℕ) (g : Gateway F B)
        → HasSent n g
        → HasSent (length pending + n) (hedge_all o tb orch sched ctx req eligible pending g)
    unfolding hedge_all
    hedge_all-HasSent ctx pending n g h =
        let cs = hedgeable o tb orch g eligible in
        let m0 : Monitor (Gateway F B) = record { already_hedged = []; fired = []; world = g } in
        let m = hedge_monitor o gateway_env cs pending sched.wakes m0 in
        let within = monitor_budget o gateway_env cs pending sched.wakes g in
        let h' =
          monitor-keeps o gateway_env cs (HasSent n) (λ e w x. x)
            (acquires-HasSent n cs (acquires-channel g eligible)) pending sched.wakes m0
            (wakes-HasSent n sched.wakes quiet.wakings) h in
        let listed =
          All-map _ _ m.fired (λ f x. candidates-listed f.candidate g eligible x) within.known in
        Sent-up o tb orch sched quiet (ids eligible) req (length (reverse m.fired) + n)
          (length pending + n)
          (deliver_all o tb orch sched.sent (hedge_context sched.drained ctx) req (reverse m.fired)
            m.world)
          (omega (arith, length-reverse m.fired, within.budget))
          (deliver_all-Sent o tb orch sched quiet (ids eligible) req
            (hedge_context sched.drained ctx) (reverse m.fired) n m.world
            (reverse-All _ m.fired listed) h')

    pub run_calls-HasSent :
        (ctx : Context (Gateway F B)) (g : Gateway F B)
        → HasSent 0 g
        → IfSome (HasSent (length eligible * 2)) (run_calls o tb orch sched ctx req eligible g)
    unfolding run_calls
    run_calls-HasSent ctx g h = elim (Option-cases (pending_carriers o tb g eligible)) [
      | inl e ↦ rw (e, run_calls) tt
      | inr (pending, e) ↦
          let early = sched.early eligible in
          let late = sched.late eligible in
          let all = named-All (λ c. c.id) eligible eligible (λ y x. x) in
          let (hearly, hlate) = All-split _ early late (All-perm _ (quiet.order eligible) all) in
          rw (e, run_calls)
            (IfSome-then (HasSent (length early + 0)) (HasSent (length eligible * 2))
              (call_all o tb orch sched.prefer ctx req early g) _
              (call_all-Sent o tb orch sched quiet (ids eligible) req ctx early 0 g hearly h)
              (λ g' h'.
                let hedged = hedge_all o tb orch sched ctx req eligible pending g' in
                let n = length pending + (length early + 0) in
                Sent-up? o tb orch sched quiet (ids eligible) req (length late + n)
                  (length eligible * 2) (call_all o tb orch sched.prefer ctx req late hedged)
                  (omega (
                    arith,
                    Perm-length (quiet.order eligible),
                    length-append early late,
                    pending-length g eligible pending e,
                  ))
                  (call_all-Sent o tb orch sched quiet (ids eligible) req ctx late n hedged hlate
                    (hedge_all-HasSent ctx pending (length early + 0) g' h'))))
    ]
