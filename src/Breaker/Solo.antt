-- ===== src/Breaker/Solo.antt =====
-- breaker.go: a goroutine that no other disturbs. `execute` is what its atomic operations amount to,
-- and every call returns, whatever the state in which it starts.
use carrier_gateway.Prelude.{
  ℕ, zero, suc, ℤ, ◌≡◌, refl, sym, ◌∙◌, false, Option, none, some, Bool-cases, inl, inr,
}
use mathlib.Core.Path.{subst}
use carrier_gateway.Domain.{Error}
use carrier_gateway.Ports.{CbState, cb_closed, cb_open, cb_half_open, Env}
use carrier_gateway.Breaker.{
  Breaker, cas_in_flight, after_closed, after_probe, execute_closed, execute_half_open,
  execute_open, execute_at, execute, is_waiting, add_success, succeeds_enough, add_failure,
  fails_enough, cas_state, emit_transition,
}
use carrier_gateway.Breaker.Soundness.{execute_open-waiting, execute_open-elapsed}
use carrier_gateway.Breaker.Threads.{
  Pc, load_state, enter_probe, call, probe, check_timeout, returned, dispatch, advance,
}

-- The clock is read when the timeout is checked, and again once `fn` has returned.
abbrev pub reading : ℤ → ℤ → Pc → ℤ
reading before after check_timeout = before
reading before after pc = after

-- The goroutine alone, `fuel` operations long, with the two readings of the clock and what `fn` returns.
unfoldable pub alone : ℕ → ℤ → ℤ → Option Error → Pc → Breaker → Breaker × Pc
alone zero before after r pc b = (b, pc)
alone (suc fuel) before after r pc b =
    let (b', pc') = advance (reading before after pc) r pc b in alone fuel before after r pc' b'

-- fuel + extra, by successors.
abbrev grow : ℕ → ℕ → ℕ
grow zero fuel = fuel
grow (suc extra) fuel = suc (grow extra fuel)

-- A call that has returned stays so, whatever fuel is left.
alone-suc :
    (fuel : ℕ) (before after : ℤ) (r x : Option Error) (pc : Pc) (b b' : Breaker)
    → alone fuel before after r pc b ≡ (b', returned x)
    → alone (suc fuel) before after r pc b ≡ (b', returned x)
unfolding alone
alone-suc zero before after r x pc b b' h =
    subst (λ (s : Breaker × Pc). advance (reading before after s.1) r s.1 s.0 ≡ (b', returned x))
      (sym h) (unfold advance in refl)
alone-suc (suc fuel) before after r x pc b b' h =
    alone-suc fuel before after r x (advance (reading before after pc) r pc b).1
      (advance (reading before after pc) r pc b).0 b' h

-- `extra` more of it change nothing.
alone-more :
    (extra fuel : ℕ) (before after : ℤ) (r x : Option Error) (pc : Pc) (b b' : Breaker)
    → alone fuel before after r pc b ≡ (b', returned x)
    → alone (grow extra fuel) before after r pc b ≡ (b', returned x)
alone-more zero fuel before after r x pc b b' h = h
alone-more (suc extra) fuel before after r x pc b b' h =
    alone-suc (grow extra fuel) before after r x pc b b'
      (alone-more extra fuel before after r x pc b b' h)

module _ {F W : Type 0} (env : Env F W) where
  -- What a call returned, as the machine shows it.
  abbrev pub shown : Breaker × W × Option Error → Breaker × Pc
  shown (b, _, r) = (b, returned r)

  solo_call :
      (st : CbState) (b : Breaker) (before : ℤ) (w : W) (r : Option Error)
      → b.state ≡ st
      → alone 4 before (env.now w) r call b ≡ shown (after_closed env b w r)
  unfolding alone advance after_closed add_failure cas_state
  solo_call st b before w none e = refl
  solo_call cb_closed b before w (some x) e = elim (Bool-cases (fails_enough (add_failure b))) [
    | inl h ↦ rw (h, e)
    | inr h ↦ rw h
  ]
  solo_call _ b before w (some x) e = elim (Bool-cases (fails_enough (add_failure b))) [
    | inl h ↦ rw (h, e)
    | inr h ↦ rw h
  ]

  solo_probe :
      (st : CbState) (b : Breaker) (before : ℤ) (w : W) (r : Option Error)
      → b.state ≡ st
      → alone 6 before (env.now w) r probe b ≡ shown (after_probe env b w r)
  unfolding alone advance after_probe add_success cas_state
  solo_probe cb_half_open b before w none e = elim (Bool-cases (succeeds_enough (add_success b))) [
    | inl h ↦ rw (h, e)
    | inr h ↦ rw h
  ]
  solo_probe _ b before w none e = elim (Bool-cases (succeeds_enough (add_success b))) [
    | inl h ↦ rw (h, e)
    | inr h ↦ rw h
  ]
  solo_probe cb_half_open b before w (some x) e = rw e
  solo_probe _ b before w (some x) e = rw e

  module _ (fn : W → W × Option Error) where
    solo_enter :
        (b : Breaker) (before : ℤ) (w : W)
        → alone 7 before (env.now (fn w).0) (fn w).1 enter_probe b
          ≡ shown (execute_half_open env fn b w)
    unfolding execute_half_open
    solo_enter b before w = elim (Bool-cases (cas_in_flight b).1) [
      | inl h ↦ rw h (
          unfold alone advance in
          rw h (solo_probe _ (cas_in_flight b).0 before (fn w).0 (fn w).1 refl))
      | inr h ↦ rw h (unfold alone advance in rw h)
    ]

    -- The two operations by which a call moves from an open circuit to the half-open one.
    open-enters :
        (b : Breaker) (before after : ℤ) (r : Option Error)
        → b.state ≡ cb_open
        → is_waiting before b ≡ false
        → alone 9 before after r check_timeout b
          ≡ alone 7 before after r enter_probe (record b { state = cb_half_open })
    unfolding alone advance cas_state
    open-enters b before after r e late = rw (late, e)

    -- The world in which a call that loads the state runs `fn`, if it does.
    abbrev pub called_in : CbState → Breaker → W → W
    called_in cb_open b w = emit_transition env b.carrier_id cb_open cb_half_open w
    called_in cb_closed b w = w
    called_in cb_half_open b w = w

    solo_open :
        (b : Breaker) (w : W)
        → b.state ≡ cb_open
        → let v = emit_transition env b.carrier_id cb_open cb_half_open w in
          alone 9 (env.now w) (env.now (fn v).0) (fn v).1 check_timeout b
          ≡ shown (execute_open env fn b w)
    unfolding cas_state
    solo_open b w e = elim (Bool-cases (is_waiting (env.now w) b)) [
      | inl early ↦ rw (execute_open-waiting env fn b w early) (unfold alone advance in rw early)
      | inr late ↦
          let v = emit_transition env b.carrier_id cb_open cb_half_open w in
          rw (execute_open-elapsed env fn b w e late) (
            open-enters b (env.now w) (env.now (fn v).0) (fn v).1 e late
            ∙ solo_enter (record b { state = cb_half_open }) (env.now w) v)
    ]

    solo_at :
        (st : CbState) (b : Breaker) (w : W)
        → b.state ≡ st
        → let v = called_in st b w in
          alone 9 (env.now w) (env.now (fn v).0) (fn v).1 (dispatch st) b
          ≡ shown (execute_at env fn st b w)
    unfolding execute_at execute_closed
    solo_at cb_closed b w e =
        alone-more 5 4 (env.now w) (env.now (fn w).0) (fn w).1 _ call b _
          (solo_call cb_closed b (env.now w) (fn w).0 (fn w).1 e)
    solo_at cb_half_open b w e =
        alone-more 2 7 (env.now w) (env.now (fn w).0) (fn w).1 _ enter_probe b _
          (solo_enter b (env.now w) w)
    solo_at cb_open b w e = solo_open b w e

    -- A call of Execute whose operations are not interleaved with others returns within ten of them,
    -- and leaves the breaker and returns as the sequential `execute` does, in any state and whatever
    -- `fn` does to the world: the timeout is checked at the reading of the clock in the world in which
    -- the call starts, and a failure that opens the circuit is stamped with the reading in the world
    -- that `fn` leaves.
    pub alone-execute :
        (b : Breaker) (w : W)
        → let v = called_in b.state b w in
          alone 10 (env.now w) (env.now (fn v).0) (fn v).1 load_state b ≡ shown (execute env fn b w)
    unfolding execute
    alone-execute b w = unfold alone advance in solo_at b.state b w refl
