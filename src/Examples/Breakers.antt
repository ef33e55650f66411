-- ===== src/Examples/Breakers.antt =====
-- Circuit breakers at concrete inputs.
use carrier_gateway.Prelude.{
  ◌+ℤ◌, ℕ, ◌≤◌, ℤ, pos, ◌≡◌, refl, Option, some, List, [], ◌∷◌, ◌++◌, arith, bytes, total,
  to_int32-pos,
}
use carrier_gateway.Domain.{Error}
use carrier_gateway.Ports.{CbState, cb_closed, cb_open, cb_half_open}
use carrier_gateway.Breaker.{
  Config, Breaker, new_breaker, execute, is_waiting, since, emit_transition, fails_enough,
  add_failure, cas_state, cas_in_flight,
}
use carrier_gateway.Breaker.Soundness.{IsSound, new_breaker-IsSound, execute-IsSound}
use carrier_gateway.Breaker.Streaks.{Counts, execute_all, opens_at}
use carrier_gateway.Breaker.Recovery.{Probes}
use carrier_gateway.Breaker.Threads.{load_state, probe, stamp_open, advance, Choice, step, run}
use carrier_gateway.Breaker.Exclusion.{start, probing, one_probe, slot_is_freed}
use carrier_gateway.Breaker.Race.{race, trips_without_waiting}
use carrier_gateway.Breaker.Solo.{alone, shown, alone-execute}
use carrier_gateway.Examples.{clock_env, failure, fail}

abbrev config : Config
config = record { failure_threshold = pos 3; success_threshold = pos 2; open_timeout = pos 100 }

-- A breaker in a given state that opened at 50, with two failures counted.
abbrev breaker : CbState → ℤ → Breaker
breaker st failures = record {
  carrier_id = bytes "alpha";
  cfg = config;
  state = st;
  failures = failures;
  successes = pos 0;
  half_open_in_flight = 0;
  opened_at = pos 50;
}

execute-IsSound_example :
    IsSound (execute clock_env fail (new_breaker (bytes "alpha") config) (pos 7)).0
execute-IsSound_example =
    execute-IsSound clock_env fail (new_breaker (bytes "alpha") config) (pos 7)
      (new_breaker-IsSound (bytes "alpha") config (omega arith) (omega arith))

abbrev counting : Counts 3 0 (breaker cb_closed (pos 0))
counting = record {
  is_closed = refl;
  failed = refl;
  threshold = refl;
  below = omega arith;
  fits = omega arith;
}

-- What a sequence of calls makes of a closed breaker.
abbrev after_calls : List (ℤ → ℤ × Option Error) → Breaker × ℤ
after_calls = execute_all clock_env (breaker cb_closed (pos 0)) (pos 7)

abbrev failing : List (ℤ → ℤ × Option Error)
failing = fail ∷ fail ∷ []

opens_at_example :
    ((after_calls (failing ++ fail ∷ [])).0.state ≡ cb_open)
    × ((after_calls (failing ++ fail ∷ [])).0.opened_at ≡ pos 7)
opens_at_example =
    opens_at clock_env 3 0 (breaker cb_closed (pos 0)) (pos 7) failing fail counting refl refl

abbrev half_open : Probes 2 0 (breaker cb_half_open (pos 0))
half_open = record {
  is_half_open = refl;
  idle = refl;
  succeeded = refl;
  threshold = refl;
  below = omega arith;
  fits = omega arith;
}

-- The clock is the world: `fn` takes thirty nanoseconds and fails, from an open circuit.
abbrev slow_fail : ℤ → ℤ × Option Error
slow_fail w = (w +ℤ pos 30, some failure)

alone-execute_example :
    alone 10 (pos 200) (pos 230) (some failure) load_state (breaker cb_open (pos 0))
    ≡ shown clock_env (execute clock_env slow_fail (breaker cb_open (pos 0)) (pos 200))
unfolding emit_transition
alone-execute_example = alone-execute clock_env slow_fail (breaker cb_open (pos 0)) (pos 200)

abbrev moves : List ℕ → List Choice
moves [] = []
moves (i ∷ is) = record { thread = i; now = pos 200; result = some failure } ∷ moves is

-- The first goroutine runs a probe while the second asks for one.
one_probe_example :
    total probing (run (start (breaker cb_open (pos 0)) 2) (moves (0 ∷ 0 ∷ 0 ∷ 0 ∷ 1 ∷ 1 ∷ []))).pcs
    ≤ 1
one_probe_example = one_probe (breaker cb_open (pos 0)) 2 (moves (0 ∷ 0 ∷ 0 ∷ 0 ∷ 1 ∷ 1 ∷ [])) refl

abbrev to_the_end : List Choice
to_the_end = moves (0 ∷ 0 ∷ 0 ∷ 0 ∷ 1 ∷ 1 ∷ 0 ∷ 0 ∷ 0 ∷ 0 ∷ 0 ∷ [])

slot_is_freed_example :
    (run (start (breaker cb_open (pos 0)) 2) to_the_end).shared.half_open_in_flight ≡ 0
unfolding run step advance is_waiting since cas_state cas_in_flight
slot_is_freed_example = slot_is_freed (breaker cb_open (pos 0)) 2 to_the_end refl (tt, (tt, tt))

trips_without_waiting_example :
    let t =
      run
        (record { shared = breaker cb_closed (pos 2); pcs = load_state ∷ load_state ∷ [] })
        (race (pos 200) failure) in
    (t.shared.state ≡ cb_half_open) × (t.pcs ≡ stamp_open failure ∷ probe ∷ [])
unfolding is_waiting since fails_enough add_failure
trips_without_waiting_example =
    trips_without_waiting (breaker cb_closed (pos 2)) (pos 200) failure refl refl
      (ground (arith, to_int32-pos 3)) refl
