-- ===== src/Breaker/Keeps.antt =====
-- breaker.go: Execute touches the rest of the process only through `fn` and the recorder.
use carrier_gateway.Prelude.{
  Text, Option, none, some, Bool, true, false, Bool-cases, inl, inr, if◌then◌else◌,
}
use carrier_gateway.Domain.{Error, sentinel, circuit_open}
use carrier_gateway.Ports.{CbState, cb_closed, cb_open, cb_half_open, Metric, Env}
use carrier_gateway.Breaker.{
  Breaker, cas_state, cas_in_flight, is_waiting, emit_transition, after_closed, after_probe,
  execute_closed, execute_half_open, execute_open, execute_at, execute,
}

-- `P` holds of the state before, `Q` of the state after and the error that is returned.
module _ {F W : Type 0} (env : Env F W) (P : W → Type 0) (Q : W → Option Error → Type 0)
    (before : (id : Text) (from to : CbState) (w : W) → P w → P (emit_transition env id from to w))
    (after : (id : Text) (from to : CbState) (w : W) (r : Option Error)
      → Q w r
      → Q (emit_transition env id from to w) r)
    (reject : (w : W) → P w → Q w (some (sentinel circuit_open))) where
  -- What a call leaves.
  abbrev Yields : Breaker × W × Option Error → Type 0
  Yields x = Q x.1 x.2

  Yields-if :
      (t : Bool) (x y : Breaker × W × Option Error)
      → Yields x
      → Yields y
      → Yields (if t then x else y)
  Yields-if true x y h k = h
  Yields-if false x y h k = k

  after_closed-Yields :
      (b : Breaker) (w : W) (r : Option Error) → Q w r → Yields (after_closed env b w r)
  unfolding after_closed
  after_closed-Yields b w none h = h
  after_closed-Yields b w (some e) h = Yields-if _ _ _ (after _ _ _ w (some e) h) h

  after_probe-Yields :
      (b : Breaker) (w : W) (r : Option Error) → Q w r → Yields (after_probe env b w r)
  unfolding after_probe
  after_probe-Yields b w none h = Yields-if _ _ _ (after _ _ _ w none h) h
  after_probe-Yields b w (some e) h = Yields-if _ _ _ (after _ _ _ w (some e) h) h

  module _ (fn : W → W × Option Error) (runs : (w : W) → P w → Q (fn w).0 (fn w).1) where
    half_open-Yields : (b : Breaker) (w : W) → P w → Yields (execute_half_open env fn b w)
    unfolding execute_half_open
    half_open-Yields b w h =
        Yields-if _ _ _ (after_probe-Yields (cas_in_flight b).0 (fn w).0 (fn w).1 (runs w h))
          (reject w h)

    execute_open-Yields : (b : Breaker) (w : W) → P w → Yields (execute_open env fn b w)
    unfolding execute_open
    execute_open-Yields b w h = elim (Bool-cases (is_waiting (env.now w) b)) [
      | inl early ↦ rw (early, execute_open) (reject w h)
      | inr late ↦ elim (Bool-cases (cas_state cb_open cb_half_open b).1) [
        | inl won ↦ rw (late, won, execute_open) (half_open-Yields _ _ (before _ _ _ w h))
        | inr lost ↦ rw (late, lost, execute_open) (half_open-Yields _ _ h)
      ]
    ]

    execute_at-Yields :
        (st : CbState) (b : Breaker) (w : W) → P w → Yields (execute_at env fn st b w)
    unfolding execute_at execute_closed
    execute_at-Yields cb_closed b w h = after_closed-Yields b (fn w).0 (fn w).1 (runs w h)
    execute_at-Yields cb_half_open b w h = half_open-Yields b w h
    execute_at-Yields cb_open b w h = execute_open-Yields b w h

    -- What `fn` brings about, Execute brings about, if a rejection does too and the recorder keeps it.
    pub execute-Yields :
        (b : Breaker) (w : W) → P w → Q (execute env fn b w).1 (execute env fn b w).2
    unfolding execute
    execute-Yields b w h = execute_at-Yields b.state b w h

-- What `fn` and the recorder keep, Execute keeps.
pub execute-keeps :
    {F W : Type 0} (env : Env F W) (P : W → Type 0)
    → ((m : Metric F) (w : W) → P w → P (env.record_metric m w))
    → (fn : W → W × Option Error) → ((w : W) → P w → P (fn w).0)
    → (b : Breaker) (w : W) → P w
    → P (execute env fn b w).1
unfolding emit_transition
execute-keeps env P recorder fn keeps =
    execute-Yields env P (λ w r. P w) (λ id from to w h. recorder _ _ (recorder _ _ h))
      (λ id from to w r h. recorder _ _ (recorder _ _ h)) (λ w h. h) fn keeps
