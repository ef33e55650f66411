-- ===== src/Tracker/Swaps.antt =====
-- hedging.go, `EMATracker.Record` under concurrency: each goroutine loads the pointer to the state,
-- builds the next state and swaps the pointer if it is still the one it loaded, else it loads again.
-- A pointer is a version number: a swap stores the address of a new state, which differs from every
-- address that a goroutine still holds.
use carrier_gateway.Prelude.{
  ℕ, suc, ℤ, none, some, List, [], ◌∷◌, ◌++◌, get_elem?, set, if◌then◌else◌, ◌==◌,
}
use carrier_gateway.Float.{FloatOps}
use carrier_gateway.Tracker.{EmaState, next_state}

pub record Cell (F : Type 0) : Type 0 where
  pub version : ℕ
  pub value : EmaState F

-- A goroutine that records a latency: before the load, before the swap, and returned.
pub data Pc (F : Type 0) : Type 0 where
  loading : ℤ → Pc F
  swapping : ℤ → Cell F → Pc F
  recorded : ℤ → Pc F

pub record Threads (F : Type 0) : Type 0 where
  pub cell : Cell F
  pub pcs : List (Pc F)

module _ {F : Type 0} (o : FloatOps F) (alpha : F) where
  -- `t.state.CompareAndSwap(old, next)`
  unfoldable pub swap : ℤ → Cell F → Cell F → Cell F × Pc F
  swap l old cell =
      if cell.version == old.version
      then (
        record { version = suc cell.version; value = next_state o alpha l old.value },
        recorded l,
      )
      else (cell, loading l)

  unfoldable pub advance : Pc F → Cell F → Cell F × Pc F
  unfolding swap
  advance (loading l) cell = (cell, swapping l cell)
  advance (swapping l old) cell = swap l old cell
  advance (recorded l) cell = (cell, recorded l)

  abbrev pub put : Threads F → ℕ → Cell F × Pc F → Threads F
  put t i (cell, pc) = record { cell = cell; pcs = set t.pcs i pc }

  unfoldable pub step : Threads F → ℕ → Threads F
  step t i = elim (get_elem? t.pcs i) [ none ↦ t | some pc ↦ put t i (advance pc t.cell) ]

  unfoldable pub run : Threads F → List ℕ → Threads F
  run t [] = t
  run t (i ∷ is) = run (step t i) is

  -- The latency that a step puts into the state, if its swap succeeds.
  abbrev pub committed_by : Pc F → Cell F → List ℤ
  committed_by (swapping l old) cell = if cell.version == old.version then l ∷ [] else []
  committed_by _ cell = []

  abbrev pub committed_at : Threads F → ℕ → List ℤ
  committed_at t i = elim (get_elem? t.pcs i) [ none ↦ [] | some pc ↦ committed_by pc t.cell ]

  -- The latencies of a run in the order of their swaps.
  abbrev pub committed : Threads F → List ℕ → List ℤ
  committed t [] = []
  committed t (i ∷ is) = committed_at t i ++ committed (step t i) is

  -- One goroutine that records them one after the other.
  abbrev pub in_turn : List ℤ → EmaState F → EmaState F
  in_turn [] s = s
  in_turn (l ∷ ls) s = in_turn ls (next_state o alpha l s)
