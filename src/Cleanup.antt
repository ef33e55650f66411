-- ===== src/Cleanup.antt =====
-- internal/cleanup/cleanup.go: the ticker that deletes expired quotes. The repository is a parameter
-- over the world `W`; the timer, `close(t.stop)` and the end of the context are the events that the
-- loop's `select` takes, in their order.
use carrier_gateway.Prelude.{
  ℕ, zero, suc, ℤ, pos, ltb_int, ◌≡◌, refl, Bool, true, false, List, [], ◌∷◌, ◌++◌, replicate,
  if◌then◌else◌,
}
use carrier_gateway.Domain.{Error, Result, ok, err}

pub data Event : Type 0 where
  tick stop context_done : Event

-- What a sweep logs.
pub data Report : Type 0 where
  failed : Error → Report
  purged : ℤ → Report
  nothing : Report

abbrev pub report_of : Result ℤ → Report
report_of (err e) = failed e
report_of (ok n) = if ltb_int (pos 0) n then purged n else nothing

-- The loop as it goes: the world, the reports (the newest first), and whether `done` is closed.
pub record Ticker (W : Type 0) : Type 0 where
  pub world : W
  pub reports : List Report
  pub done : Bool

module _ {W : Type 0} (delete_expired : W → W × Result ℤ) where
  -- `sweep`
  unfoldable pub sweep : W → W × Report
  sweep w = let (w', r) = delete_expired w in (w', report_of r)

  -- `Start`, for the events that reach it.
  unfoldable pub start : List Event → Ticker W → Ticker W
  unfolding sweep
  start [] t = t
  start (tick ∷ events) t =
      let (w, r) = sweep t.world in start events (record t { world = w; reports = r ∷ t.reports })
  start (stop ∷ events) t = record t { done = true }
  start (context_done ∷ events) t = record t { done = true }

  -- `New` and the `go` statement.
  abbrev pub new_ticker : W → Ticker W
  new_ticker w = record { world = w; reports = []; done = false }

  -- The world after some sweeps.
  abbrev pub sweeps : ℕ → W → W
  sweeps zero w = w
  sweeps (suc n) w = sweeps n (sweep w).0

  -- After Stop the loop ends: what follows is not seen, each tick before it has swept once, and the
  -- channel that Stop waits for is closed.
  pub start-stop :
      (n : ℕ) (later : List Event) (t : Ticker W)
      → let after = start (replicate n tick ++ stop ∷ later) t in
        (after.done ≡ true) × (after.world ≡ sweeps n t.world)
  unfolding start
  start-stop zero later t = (refl, refl)
  start-stop (suc n) later t =
      let (w, r) = sweep t.world in
      start-stop n later (record t { world = w; reports = r ∷ t.reports })
