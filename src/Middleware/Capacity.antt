-- ===== src/Middleware/Capacity.antt =====
-- concurrency.go: how many requests are in the guarded handler at once.
use carrier_gateway.Prelude.{
  some_inj, ℕ, zero, suc, ◌≤◌, ltb, ltb→lt, lt→ltb, ◌≡◌, ◌≢◌, All, refl, ◌∙◌, some, List, [], ◌∷◌,
  get_elem?, set, replicate, total, total-set, length, Option-cases, Bool-cases, inl, inr, arith,
}
use carrier_gateway.Middleware.Slots.{
  Pc, arriving, inside, full, answered, Requests, advance, step, run,
}

-- 1 for a request that is in the handler.
abbrev pub occupies : Pc → ℕ
occupies arriving = 0
occupies inside = 1
occupies full = 0
occupies answered = 0

-- The channel holds one item for each request in the handler, and no more than its capacity.
pub record IsCounted (max : ℕ) (s : Requests) : Type 0 where
  pub counts : s.used ≡ total occupies s.pcs
  pub bounded : s.used ≤ max

total-get :
    (pcs : List Pc) (i : ℕ) (pc : Pc) → get_elem? pcs i ≡ some pc → occupies pc ≤ total occupies pcs
total-get [] i pc e = absurd (ground arith)
total-get (p ∷ pcs) zero pc e = ground arith
total-get (p ∷ pcs) (suc i) pc e = omega (arith, total-get pcs i pc e)

advance-IsCounted :
    (max i : ℕ) (pc : Pc) (s : Requests)
    → IsCounted max s
    → get_elem? s.pcs i ≡ some pc
    → IsCounted max
        (record { used = (advance max pc s.used).1; pcs = set s.pcs i (advance max pc s.used).0 })
unfolding advance
advance-IsCounted max i arriving s h e = elim (Bool-cases (ltb s.used max)) [
  | inl b ↦
      rw (b, advance)
        (record {
          counts = omega (arith, h.counts, total-set occupies s.pcs i arriving inside e);
          bounded = ltb→lt s.used max b;
        })
  | inr b ↦
      rw (b, advance)
        (record {
          counts = omega (arith, h.counts, total-set occupies s.pcs i arriving full e);
          bounded = h.bounded;
        })
]
advance-IsCounted max i inside s h e = record {
  counts =
      omega
        (arith, h.counts, total-get s.pcs i inside e, total-set occupies s.pcs i inside answered e);
  bounded = omega (arith, h.bounded);
}
advance-IsCounted max i full s h e = record {
  counts = omega (arith, h.counts, total-set occupies s.pcs i full full e);
  bounded = h.bounded;
}
advance-IsCounted max i answered s h e = record {
  counts = omega (arith, h.counts, total-set occupies s.pcs i answered answered e);
  bounded = h.bounded;
}

step-IsCounted : (max i : ℕ) (s : Requests) → IsCounted max s → IsCounted max (step max i s)
unfolding step
step-IsCounted max i s h = elim (Option-cases (get_elem? s.pcs i)) [
  | inl e ↦ rw (e, step) h
  | inr (pc, e) ↦ rw (e, step) (advance-IsCounted max i pc s h e)
]

run-IsCounted :
    (max : ℕ) (schedule : List ℕ) (s : Requests)
    → IsCounted max s
    → IsCounted max (run max schedule s)
unfolding run
run-IsCounted max [] s h = h
run-IsCounted max (i ∷ schedule) s h =
    run-IsCounted max schedule (step max i s) (step-IsCounted max i s h)

-- The requests before any of them has arrived.
abbrev pub start : ℕ → Requests
start n = record { used = 0; pcs = replicate n arriving }

start-total : (n : ℕ) → total occupies (replicate n arriving) ≡ 0
start-total zero = refl
start-total (suc n) = omega (arith, start-total n)

-- Whatever the order in which requests enter and leave, the guarded handler never runs for more than
-- `max` of them, and the channel holds one item for each that it runs for.
pub run-start-IsCounted :
    (max n : ℕ) (schedule : List ℕ) → IsCounted max (run max schedule (start n))
run-start-IsCounted max n schedule =
    run-IsCounted max schedule (start n)
      (record { counts = omega (arith, start-total n); bounded = omega arith })

-- No request was turned away.
abbrev pub NoneFull : List Pc → Type 0
NoneFull = All (λ pc. pc ≢ full)

start-NoneFull : (n : ℕ) → NoneFull (replicate n arriving)
start-NoneFull zero = tt
start-NoneFull (suc n) = ((λ e. absurd (ground arith)), start-NoneFull n)

set-NoneFull :
    (pcs : List Pc) (i : ℕ) (pc : Pc) → pc ≢ full → NoneFull pcs → NoneFull (set pcs i pc)
set-NoneFull [] i pc d h = tt
set-NoneFull (p ∷ pcs) zero pc d h = (d, h.1)
set-NoneFull (p ∷ pcs) (suc i) pc d h = (h.0, set-NoneFull pcs i pc d h.1)

get-NoneFull :
    (pcs : List Pc) (i : ℕ) (pc : Pc) → get_elem? pcs i ≡ some pc → NoneFull pcs → pc ≢ full
get-NoneFull [] i pc e h = absurd (ground arith)
get-NoneFull (p ∷ pcs) zero pc e h = λ x. h.0 (some_inj e ∙ x)
get-NoneFull (p ∷ pcs) (suc i) pc e h = get-NoneFull pcs i pc e h.1

total-length : (pcs : List Pc) → total occupies pcs ≤ length pcs
total-length [] = omega arith
total-length (arriving ∷ pcs) = omega (arith, total-length pcs)
total-length (inside ∷ pcs) = omega (arith, total-length pcs)
total-length (full ∷ pcs) = omega (arith, total-length pcs)
total-length (answered ∷ pcs) = omega (arith, total-length pcs)

-- One that is not there yet leaves room for itself.
arriving-room :
    (pcs : List Pc) (i : ℕ)
    → get_elem? pcs i ≡ some arriving
    → suc (total occupies pcs) ≤ length pcs
arriving-room [] i e = absurd (ground arith)
arriving-room (p ∷ pcs) zero e = ground (arith, total-length pcs)
arriving-room (arriving ∷ pcs) (suc i) e = omega (arith, arriving-room pcs i e)
arriving-room (inside ∷ pcs) (suc i) e = omega (arith, arriving-room pcs i e)
arriving-room (full ∷ pcs) (suc i) e = omega (arith, arriving-room pcs i e)
arriving-room (answered ∷ pcs) (suc i) e = omega (arith, arriving-room pcs i e)

length-set : (pcs : List Pc) (i : ℕ) (pc : Pc) → length (set pcs i pc) ≡ length pcs
length-set [] i pc = refl
length-set (p ∷ pcs) zero pc = refl
length-set (p ∷ pcs) (suc i) pc = omega (arith, length-set pcs i pc)

-- There are no more requests than slots, and none was turned away.
record IsRoomy (max : ℕ) (s : Requests) : Type 0 where
  counted : IsCounted max s
  few : length s.pcs ≤ max
  welcome : NoneFull s.pcs

advance-welcome :
    (max i : ℕ) (pc : Pc) (s : Requests)
    → IsRoomy max s
    → get_elem? s.pcs i ≡ some pc
    → NoneFull (set s.pcs i (advance max pc s.used).0)
unfolding advance
advance-welcome max i arriving s h e =
    rw
      (lt→ltb s.used max (omega (arith, h.few, h.counted.counts, arriving-room s.pcs i e)), advance)
      (set-NoneFull s.pcs i inside (λ x. absurd (ground arith)) h.welcome)
advance-welcome max i inside s h e =
    set-NoneFull s.pcs i answered (λ x. absurd (ground arith)) h.welcome
advance-welcome max i full s h e = absurd (get-NoneFull s.pcs i full e h.welcome refl)
advance-welcome max i answered s h e =
    set-NoneFull s.pcs i answered (λ x. absurd (ground arith)) h.welcome

step-IsRoomy : (max i : ℕ) (s : Requests) → IsRoomy max s → IsRoomy max (step max i s)
unfolding step
step-IsRoomy max i s h = elim (Option-cases (get_elem? s.pcs i)) [
  | inl e ↦ rw (e, step) h
  | inr (pc, e) ↦
      rw (e, step)
        (record {
          counted = advance-IsCounted max i pc s h.counted e;
          few = omega (arith, h.few, length-set s.pcs i (advance max pc s.used).0);
          welcome = advance-welcome max i pc s h e;
        })
]

run-IsRoomy :
    (max : ℕ) (schedule : List ℕ) (s : Requests) → IsRoomy max s → IsRoomy max (run max schedule s)
unfolding run
run-IsRoomy max [] s h = h
run-IsRoomy max (i ∷ schedule) s h =
    run-IsRoomy max schedule (step max i s) (step-IsRoomy max i s h)

length-replicate : (n : ℕ) → length (replicate n arriving) ≡ n
length-replicate zero = refl
length-replicate (suc n) = omega (arith, length-replicate n)

-- No request is turned away where there are no more of them than slots, whatever their order.
pub run-start-NoneFull :
    (max n : ℕ) (schedule : List ℕ) → n ≤ max → NoneFull (run max schedule (start n)).pcs
run-start-NoneFull max n schedule h =
    (run-IsRoomy max schedule (start n) (record {
      counted = record { counts = omega (arith, start-total n); bounded = omega arith };
      few = omega (arith, length-replicate n);
      welcome = start-NoneFull n;
    })).welcome
