-- ===== src/Breaker/Exclusion.antt =====
-- breaker.go: `halfOpenInFlight` counts the goroutines between taking and freeing the probe slot, so
-- that no two of them run a probe at once, under every interleaving.
use carrier_gateway.Prelude.{
  ℕ, zero, suc, ◌+◌, ◌≤◌, ℤ, ◌≡◌, refl, Option, none, some, Option-cases, List, [], ◌∷◌, arith, inl,
  inr, get_elem?, total, total-set, replicate, sym, ◌∙◌, All,
}
use carrier_gateway.Domain.{Error}
use carrier_gateway.Breaker.{Breaker, add_failure, add_success, cas_state, cas_in_flight}
use carrier_gateway.Breaker.Threads.{
  Pc, load_state, call, probe, swap_reopen, stamp_reopen, clear_successes, count_success,
  swap_close, close_failures, close_successes, leave_probe, returned, advance, Threads, Choice,
  step, run, put,
}

-- The goroutine holds the probe slot.
abbrev pub holds : Pc → ℕ
holds probe = 1
holds (swap_reopen e) = 1
holds (stamp_reopen e) = 1
holds (clear_successes e) = 1
holds count_success = 1
holds swap_close = 1
holds close_failures = 1
holds close_successes = 1
holds (leave_probe r) = 1
holds _ = 0

abbrev pub probing : Pc → ℕ
probing probe = 1
probing _ = 0

-- The slot is taken by at most one goroutine, and the shared variable says whether it is.
pub record Exclusive (t : Threads) : Type 0 where
  pub unavailable-Counts : total holds t.pcs ≡ t.shared.half_open_in_flight
  pub at_most_one : t.shared.half_open_in_flight ≤ 1

-- One operation changes the variable and the goroutine's hold together.
advance-holds :
    (now : ℤ) (r : Option Error) (pc : Pc) (b : Breaker)
    → holds pc ≤ b.half_open_in_flight
    → b.half_open_in_flight ≤ 1
    → let (b', pc') = advance now r pc b in
      (b'.half_open_in_flight + holds pc ≡ b.half_open_in_flight + holds pc')
      × (b'.half_open_in_flight ≤ 1)
unfolding advance add_failure add_success cas_state cas_in_flight
advance-holds now none call b h k = ground arith
advance-holds now (some e) call b h k = ground arith
advance-holds now none probe b h k = ground arith
advance-holds now (some e) probe b h k = ground arith
advance-holds now r _ b h k = ground arith

holds-le-total :
    (pcs : List Pc) (i : ℕ) (pc : Pc) → get_elem? pcs i ≡ some pc → holds pc ≤ total holds pcs
holds-le-total [] i pc h = ground arith
holds-le-total (x ∷ pcs) zero pc h = ground arith
holds-le-total (x ∷ pcs) (suc i) pc h = omega (arith, holds-le-total pcs i pc h)

advance-Exclusive :
    (t : Threads) (i : ℕ) (now : ℤ) (r : Option Error) (pc : Pc)
    → get_elem? t.pcs i ≡ some pc
    → Exclusive t
    → Exclusive (put t i (advance now r pc t.shared))
advance-Exclusive t i now r pc e x =
    let below = holds-le-total t.pcs i pc e in
    let (kept, one) = advance-holds now r pc t.shared (omega arith) x.at_most_one in
    let change = total-set holds t.pcs i pc (advance now r pc t.shared).1 e in
    record { unavailable-Counts = omega arith; at_most_one = one }

pub step-Exclusive : (t : Threads) (c : Choice) → Exclusive t → Exclusive (step t c)
unfolding step
step-Exclusive t c x = elim (Option-cases (get_elem? t.pcs c.thread)) [
  | inl e ↦ rw (e, step) x
  | inr (pc, e) ↦ rw (e, step) (advance-Exclusive t c.thread c.now c.result pc e x)
]

pub run-Exclusive : (t : Threads) (cs : List Choice) → Exclusive t → Exclusive (run t cs)
unfolding run
run-Exclusive t [] x = x
run-Exclusive t (c ∷ cs) x = run-Exclusive (step t c) cs (step-Exclusive t c x)

probing-le-holds : (pc : Pc) → probing pc ≤ holds pc
probing-le-holds probe = omega arith
probing-le-holds _ = omega arith

total-probing-le : (pcs : List Pc) → total probing pcs ≤ total holds pcs
total-probing-le [] = omega arith
total-probing-le (pc ∷ pcs) = omega (arith, probing-le-holds pc, total-probing-le pcs)

-- `n` goroutines that are about to call Execute on one breaker.
abbrev pub start : Breaker → ℕ → Threads
start b n = record { shared = b; pcs = replicate n load_state }

start-total : (n : ℕ) → total holds (replicate n load_state) ≡ 0
start-total zero = refl
start-total (suc n) = omega (arith, start-total n)

start-Exclusive : (b : Breaker) (n : ℕ) → b.half_open_in_flight ≡ 0 → Exclusive (start b n)
start-Exclusive b n h = record {
  unavailable-Counts = start-total n ∙ sym h;
  at_most_one = omega arith;
}

-- However many goroutines call Execute, and however their operations interleave, at most one is
-- running a half-open probe.
pub one_probe :
    (b : Breaker) (n : ℕ) (cs : List Choice)
    → b.half_open_in_flight ≡ 0
    → total probing (run (start b n) cs).pcs ≤ 1
one_probe b n cs h =
    let x = run-Exclusive (start b n) cs (start-Exclusive b n h) in
    omega (arith, total-probing-le (run (start b n) cs).pcs)

abbrev pub HasReturned : Pc → Type 0
HasReturned (returned r) = Unit {0}
HasReturned _ = ⊥

returned-total : (pcs : List Pc) → All HasReturned pcs → total holds pcs ≡ 0
returned-total [] h = refl
returned-total (returned r ∷ pcs) h = omega (arith, returned-total pcs h.1)
returned-total (_ ∷ pcs) h = absurd h.0

-- Once all their calls have returned, the probe slot is free again: no call leaks it.
pub slot_is_freed :
    (b : Breaker) (n : ℕ) (cs : List Choice)
    → b.half_open_in_flight ≡ 0
    → All HasReturned (run (start b n) cs).pcs
    → (run (start b n) cs).shared.half_open_in_flight ≡ 0
slot_is_freed b n cs h done =
    let x = run-Exclusive (start b n) cs (start-Exclusive b n h) in
    omega (arith, returned-total (run (start b n) cs).pcs done)
