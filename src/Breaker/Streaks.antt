-- ===== src/Breaker/Streaks.antt =====
-- breaker.go: which sequences of outcomes trip a closed breaker, and which close a half-open one.
use carrier_gateway.Prelude.{
  ℕ, suc, ◌<◌, pos, ◌≡◌, refl, leb, Bool, true, false, ◌||◌, Option-cases, Option, none, some, List,
  [], ◌∷◌, ◌++◌, arith, inl, inr, half32,
}
use carrier_gateway.Domain.{Error}
use carrier_gateway.Ports.{cb_closed, cb_open, Env}
use carrier_gateway.Breaker.{Breaker, after_closed, execute, execute_at, execute_closed}
use carrier_gateway.Breaker.Soundness.{count_up, to_int32-threshold}

module _ {F W : Type 0} (env : Env F W) where
  -- Calls one after the other, each with the function that it runs.
  abbrev pub execute_all : Breaker → W → List (W → W × Option Error) → Breaker × W
  execute_all b w [] = (b, w)
  execute_all b w (fn ∷ fns) = let (b', w', _) = execute env fn b w in execute_all b' w' fns

-- Some run of `limit` failures in a row stands in the outcomes, where `n` failures stood before.
abbrev pub has_streak : ℕ → ℕ → List (Option Error) → Bool
has_streak limit n [] = false
has_streak limit n (none ∷ rs) = has_streak limit 0 rs
has_streak limit n (some e ∷ rs) = leb limit (suc n) || has_streak limit (suc n) rs

-- What the functions return when each runs where the one before left the world.
abbrev pub outcomes : {W : Type 0} → W → List (W → W × Option Error) → List (Option Error)
outcomes w [] = []
outcomes w (fn ∷ fns) = let (w', r) = fn w in r ∷ outcomes w' fns

-- A closed breaker with `n` failures in a row and the threshold `limit`.
pub record Counts (limit n : ℕ) (b : Breaker) : Type 0 where
  pub is_closed : b.state ≡ cb_closed
  pub failed : b.failures ≡ pos n
  pub threshold : b.cfg.failure_threshold ≡ pos limit
  pub below : n < limit
  pub fits : limit < half32

module _ {F W : Type 0} (env : Env F W) where
  step_ok :
      (limit n : ℕ) (b : Breaker) (w : W) (fn : W → W × Option Error)
      → Counts limit n b
      → (fn w).1 ≡ none
      → ((execute env fn b w).1 ≡ (fn w).0) × Counts limit 0 (execute env fn b w).0
  unfolding execute execute_at execute_closed after_closed
  step_ok limit n b w fn c e = ground arith

  step_err :
      (limit n : ℕ) (b : Breaker) (w : W) (fn : W → W × Option Error) {x : Error}
      → Counts limit n b
      → (fn w).1 ≡ some x
      → leb limit (suc n) ≡ false
      → ((execute env fn b w).1 ≡ (fn w).0) × Counts limit (suc n) (execute env fn b w).0
  unfolding execute execute_at execute_closed after_closed
  step_err limit n b w fn c e h =
      ground (arith, count_up b.failures, to_int32-threshold b.cfg.failure_threshold)

  -- The failure that completes the streak opens the circuit, at the time it returns.
  step_trip :
      (limit n : ℕ) (b : Breaker) (w : W) (fn : W → W × Option Error) {x : Error}
      → Counts limit n b
      → (fn w).1 ≡ some x
      → leb limit (suc n) ≡ true
      → ((execute env fn b w).0.state ≡ cb_open)
        × ((execute env fn b w).0.opened_at ≡ env.now (fn w).0)
  unfolding execute execute_at execute_closed after_closed
  step_trip limit n b w fn c e h =
      ground (arith, count_up b.failures, to_int32-threshold b.cfg.failure_threshold)

  -- The world in which the calls of `fns` leave it, if each runs its function.
  abbrev pub world_after : W → List (W → W × Option Error) → W
  world_after w [] = w
  world_after w (fn ∷ fns) = world_after (fn w).0 fns

  -- From a closed breaker with `n` failures in a row, calls that do not overlap keep the circuit
  -- closed as long as their outcomes have no streak of `limit` failures.
  closed_until :
      (limit n : ℕ) (b : Breaker) (w : W) (fns : List (W → W × Option Error))
      → Counts limit n b
      → has_streak limit n (outcomes w fns) ≡ false
      → ((execute_all env b w fns).0.state ≡ cb_closed)
        × ((execute_all env b w fns).1 ≡ world_after w fns)
  closed_until limit n b w [] c h = (c.is_closed, refl)
  closed_until limit n b w (fn ∷ fns) c h = elim (Option-cases (fn w).1) [
    | inl e ↦
        let (ew, c') = step_ok limit n b w fn c e in
        rw (ew, execute_all)
          (closed_until limit 0 (execute env fn b w).0 (fn w).0 fns c' (ground arith))
    | inr (x, e) ↦
        let (ew, c') = step_err limit n b w fn c e (ground arith) in
        rw (ew, execute_all)
          (closed_until limit (suc n) (execute env fn b w).0 (fn w).0 fns c' (ground arith))
  ]

  -- From a closed breaker whose threshold is below 2^31, the call that completes the first run of that
  -- many consecutive failures opens the circuit, at the time at which its function returns.
  pub opens_at :
      (limit n : ℕ) (b : Breaker) (w : W) (fns : List (W → W × Option Error))
      (fn : W → W × Option Error)
      → Counts limit n b
      → has_streak limit n (outcomes w fns) ≡ false
      → has_streak limit n (outcomes w (fns ++ fn ∷ [])) ≡ true
      → ((execute_all env b w (fns ++ fn ∷ [])).0.state ≡ cb_open)
        × ((execute_all env b w (fns ++ fn ∷ [])).0.opened_at ≡ env.now (fn (world_after w fns)).0)
  opens_at limit n b w [] fn c h k = elim (Option-cases (fn w).1) [
    | inl e ↦ ground arith
    | inr (x, e) ↦ step_trip limit n b w fn c e (ground arith)
  ]
  opens_at limit n b w (g ∷ fns) fn c h k = elim (Option-cases (g w).1) [
    | inl e ↦
        let (ew, c') = step_ok limit n b w g c e in
        rw (ew, execute_all)
          (opens_at limit 0 (execute env g b w).0 (g w).0 fns fn c' (ground arith) (ground arith))
    | inr (x, e) ↦
        let (ew, c') = step_err limit n b w g c e (ground arith) in
        rw (ew, execute_all)
          (opens_at limit (suc n) (execute env g b w).0 (g w).0 fns fn c' (ground arith)
            (ground arith))
  ]
