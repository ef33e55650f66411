-- ===== src/Hedging.antt =====
-- internal/orchestrator/hedging.go: the choice of a hedge candidate and the hedge monitor. A
-- candidate's closures (`tryAcquire`, `cbState`) act on the world `W`; a hedge goroutine that is
-- fired stands in a list, and what its call brings back is in `deliver_hedge`. The map of pending
-- carriers is a list in the order in which Go happens to range over it.
pub mod Choice
pub mod Once
pub mod Keeps
pub mod Budget
use carrier_gateway.Prelude.{
  ℤ, pos, ◌-ℤ◌, ltb_int, Text, text_eq, Bool, true, false, ◌&&◌, ◌||◌, Option, none, some, List, [],
  ◌∷◌, ◌++◌, if◌then◌else◌,
}
use carrier_gateway.Prelude.Maps.{member}
use carrier_gateway.Domain.{Carrier, Context, QuoteResult, Result, ok, err}
use carrier_gateway.Float.{FloatOps}
use carrier_gateway.Ports.{CbState, cb_closed, cb_open, cb_half_open, Env, record_hedge}
use carrier_gateway.Tracker.{millisecond}

pub record Pending (F : Type 0) : Type 0 where
  pub start_time : ℤ
  pub hedge_threshold : F

pub record HedgeCarrier (F W : Type 0) : Type 0 where
  pub carrier : Carrier F
  pub p95_ms : F
  pub try_acquire : W → W × Bool
  pub cb_state : W → CbState

abbrev pub is_open : CbState → Bool
is_open cb_open = true
is_open cb_closed = false
is_open cb_half_open = false

module _ {F W : Type 0} (o : FloatOps F) where
  -- One round of the loop of `selectHedgeCandidate`.
  unfoldable pub consider :
      Text → W → Option (HedgeCarrier F W) → HedgeCarrier F W → Option (HedgeCarrier F W)
  consider exclude w none c =
      if text_eq c.carrier.id exclude then none else if is_open (c.cb_state w) then none else some c
  consider exclude w (some best) c =
      if text_eq c.carrier.id exclude
      then some best
      else if is_open (c.cb_state w)
      then some best
      else if o.lt c.p95_ms best.p95_ms
      then some c
      else if o.eq c.p95_ms best.p95_ms
          && ltb_int c.carrier.config.priority best.carrier.config.priority
      then some c
      else some best

  unfoldable pub select_from :
      Text → W → Option (HedgeCarrier F W) → List (HedgeCarrier F W) → Option (HedgeCarrier F W)
  select_from exclude w best [] = best
  select_from exclude w best (c ∷ cs) = select_from exclude w (consider exclude w best c) cs

  unfoldable pub select_hedge_candidate :
      Text → W → List (HedgeCarrier F W) → Option (HedgeCarrier F W)
  unfolding select_from
  select_hedge_candidate exclude w eligible = select_from exclude w none eligible

-- A hedge goroutine that was started: the slow carrier and the one that is asked instead.
pub record Fired : Type 0 where
  pub trigger : Text
  pub candidate : Text

-- The monitor's variables: whom it has hedged, what it started, and the rest of the process.
pub record Monitor (W : Type 0) : Type 0 where
  pub already_hedged : List Text
  pub fired : List Fired
  pub world : W

module _ {F W : Type 0} (o : FloatOps F) (env : Env F W) (eligible : List (HedgeCarrier F W)) where
  -- A candidate was found: take a token from its limiter, and start the goroutine if there is one.
  unfoldable pub fire : Text → HedgeCarrier F W → Monitor W → Monitor W
  fire id c m =
      let (w, got) = c.try_acquire m.world in
      if got
      then record {
        already_hedged = id ∷ m.already_hedged;
        fired = record { trigger = id; candidate = c.carrier.id } ∷ m.fired;
        world = env.record_metric (record_hedge c.carrier.id id) w;
      }
      else record m { world = w }

  -- A pending carrier that has not been hedged yet.
  unfoldable pub visit : ℤ → Text → Pending F → Monitor W → Monitor W
  unfolding fire
  visit now id p m =
      let elapsed_ms = o.div (o.of_int (now -ℤ p.start_time)) (o.of_int millisecond) in
      if o.lt elapsed_ms p.hedge_threshold
      then m
      else elim (select_hedge_candidate o id m.world eligible) [ none ↦ m | some c ↦ fire id c m ]

  -- The loop over the pending carriers; the Boolean is `allResolved`.
  unfoldable pub scan : ℤ → List (Text × Pending F) → Monitor W → Bool → Monitor W × Bool
  scan now [] m all_resolved = (m, all_resolved)
  scan now ((id, p) ∷ ps) m all_resolved =
      let hedged = member id m.already_hedged in
      scan now ps (if hedged then m else visit now id p m) (if hedged then all_resolved else false)

  -- What wakes the monitor: `ctx.Done()`, or the ticker, after which the world has moved on.
  unfoldable pub hedge_monitor :
      List (Text × Pending F) → List (Option (W → W)) → Monitor W → Monitor W
  hedge_monitor pending [] m = m
  hedge_monitor pending (none ∷ wakes) m = m
  hedge_monitor pending (some wake ∷ wakes) m =
      let w = wake m.world in
      let (m', all_resolved) = scan (env.now w) pending (record m { world = w }) true in
      let rest = hedge_monitor pending wakes m' in if all_resolved then m' else rest

-- What a hedge goroutine sends: its result, marked, unless the call failed or the context is done
-- (where both ways of the `select` are open, Go may take either: `sent` says which).
unfoldable pub deliver_hedge : Bool → Result QuoteResult → Option QuoteResult
deliver_hedge sent (err e) = none
deliver_hedge sent (ok result) = if sent then some (record result { is_hedged = true }) else none
