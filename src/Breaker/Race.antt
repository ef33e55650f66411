-- ===== src/Breaker/Race.antt =====
-- breaker.go: between the swap to open and the store of the opening time, another goroutine reads
-- the opening time of an earlier period.
use carrier_gateway.Prelude.{ℕ, ℤ, ◌≡◌, true, false, Option, none, some, List, [], ◌∷◌, arith}
use carrier_gateway.Domain.{Error}
use carrier_gateway.Ports.{cb_closed, cb_half_open}
use carrier_gateway.Breaker.{
  Breaker, is_waiting, add_failure, fails_enough, cas_state, cas_in_flight,
}
use carrier_gateway.Breaker.Threads.{load_state, probe, stamp_open, advance, Choice, step, run}

-- The first goroutine fails and swaps the state; the second then goes all the way to its probe.
abbrev pub race : ℤ → Error → List Choice
race now e =
    move 0 none
    ∷ move 0 (some e)
    ∷ move 0 none
    ∷ move 0 none
    ∷ move 1 none
    ∷ move 1 none
    ∷ move 1 none
    ∷ move 1 none
    ∷ []
  where
    move : ℕ → Option Error → Choice
    move i r = record { thread = i; now = now; result = r }

-- With one failure to go and an opening time that is older than `OpenTimeout` (it is zero until the
-- first trip), two goroutines can reach, at one instant, a probe of the circuit that has just
-- tripped: no part of the open period passes.
pub trips_without_waiting :
    (b : Breaker) (now : ℤ) (e : Error)
    → b.state ≡ cb_closed
    → b.half_open_in_flight ≡ 0
    → fails_enough (add_failure b) ≡ true
    → is_waiting now b ≡ false
    → let t = run (record { shared = b; pcs = load_state ∷ load_state ∷ [] }) (race now e) in
      (t.shared.state ≡ cb_half_open) × (t.pcs ≡ stamp_open e ∷ probe ∷ [])
unfolding run step advance add_failure cas_state cas_in_flight is_waiting
trips_without_waiting b now e closed idle enough stale = ground arith
