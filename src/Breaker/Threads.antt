-- ===== src/Breaker/Threads.antt =====
-- breaker.go, `Execute` under concurrency: any number of goroutines, each between two of its atomic
-- operations, in any order that a scheduler picks. The scheduler also picks what the clock reads and
-- what a called function returns; metrics are no part of the shared state and are left out.
use carrier_gateway.Prelude.{
  ℕ, ℤ, pos, Option, none, some, List, [], ◌∷◌, get_elem?, set, if◌then◌else◌,
}
use carrier_gateway.Domain.{Error, sentinel, circuit_open}
use carrier_gateway.Ports.{CbState, cb_closed, cb_open, cb_half_open}
use carrier_gateway.Breaker.{
  Breaker, cas_state, cas_in_flight, add_failure, add_success, fails_enough, succeeds_enough,
  is_waiting,
}

-- What a goroutine does next.
pub data Pc : Type 0 where
  -- Execute: load the state; compare the clock with the opening time; swap to half-open
  load_state check_timeout swap_half_open : Pc
  -- executeClosed: run fn; add to the failures; swap to open; store the opening time; clear
  call : Pc
  count_failure swap_open stamp_open : Error → Pc
  clear_failures : Pc
  -- executeHalfOpen: take the probe slot; run fn
  enter_probe probe : Pc
  -- a failed probe: swap to open; store the opening time; clear the successes
  swap_reopen stamp_reopen clear_successes : Error → Pc
  -- a good probe: add to the successes; swap to closed; clear both counters
  count_success swap_close close_failures close_successes : Pc
  -- the deferred store that frees the slot
  leave_probe : Option Error → Pc
  returned : Option Error → Pc

-- The `switch` of Execute on the state that was loaded.
abbrev pub dispatch : CbState → Pc
dispatch cb_closed = call
dispatch cb_open = check_timeout
dispatch cb_half_open = enter_probe

-- One atomic operation of a goroutine, at the clock `now`; `result` is what `fn` returns.
unfoldable pub advance : ℤ → Option Error → Pc → Breaker → Breaker × Pc
advance now result load_state b = (b, dispatch b.state)
advance now result check_timeout b =
    (b, if is_waiting now b then returned (some (sentinel circuit_open)) else swap_half_open)
advance now result swap_half_open b = ((cas_state cb_open cb_half_open b).0, enter_probe)
advance now none call b = (b, clear_failures)
advance now (some e) call b = (b, count_failure e)
advance now result (count_failure e) b =
    (add_failure b, if fails_enough (add_failure b) then swap_open e else returned (some e))
advance now result (swap_open e) b =
    let (c, tripped) = cas_state cb_closed cb_open b in
    (c, if tripped then stamp_open e else returned (some e))
advance now result (stamp_open e) b = (record b { opened_at = now }, returned (some e))
advance now result clear_failures b = (record b { failures = pos 0 }, returned none)
advance now result enter_probe b =
    let (c, acquired) = cas_in_flight b in
    (c, if acquired then probe else returned (some (sentinel circuit_open)))
advance now none probe b = (b, count_success)
advance now (some e) probe b = (b, swap_reopen e)
advance now result (swap_reopen e) b =
    let (c, reopened) = cas_state cb_half_open cb_open b in
    (c, if reopened then stamp_reopen e else leave_probe (some e))
advance now result (stamp_reopen e) b = (record b { opened_at = now }, clear_successes e)
advance now result (clear_successes e) b = (record b { successes = pos 0 }, leave_probe (some e))
advance now result count_success b =
    (add_success b, if succeeds_enough (add_success b) then swap_close else leave_probe none)
advance now result swap_close b =
    let (c, closes) = cas_state cb_half_open cb_closed b in
    (c, if closes then close_failures else leave_probe none)
advance now result close_failures b = (record b { failures = pos 0 }, close_successes)
advance now result close_successes b = (record b { successes = pos 0 }, leave_probe none)
advance now result (leave_probe r) b = (record b { half_open_in_flight = 0 }, returned r)
advance now result (returned r) b = (b, returned r)

pub record Threads : Type 0 where
  pub shared : Breaker
  pub pcs : List Pc

-- The scheduler's choice: which goroutine moves, and what its environment answers.
pub record Choice : Type 0 where
  pub thread : ℕ
  pub now : ℤ
  pub result : Option Error

-- `put` writes back what a goroutine that exists has done.
abbrev pub put : Threads → ℕ → Breaker × Pc → Threads
put t i (b, pc) = record { shared = b; pcs = set t.pcs i pc }

unfoldable pub step : Threads → Choice → Threads
step t c = elim (get_elem? t.pcs c.thread) [
  | none ↦ t
  | some pc ↦ put t c.thread (advance c.now c.result pc t.shared)
]

unfoldable pub run : Threads → List Choice → Threads
run t [] = t
run t (c ∷ cs) = run (step t c) cs
