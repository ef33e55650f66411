-- ===== src/Tracker/Linear.antt =====
-- hedging.go: racing calls of `EMATracker.Record` take effect one after the other.
use carrier_gateway.Prelude.{
  ℕ, zero, suc, ◌+◌, ◌≤◌, ℤ, ◌≡◌, refl, sym, ◌∙◌, ap, some, Option-cases, List, [], ◌∷◌, ◌++◌, map,
  arith, inl, inr, get_elem?, set, total, total-set, All, ◌==◌, ==_iff, Bool-cases,
}
use mathlib.Core.Path.{subst}
use carrier_gateway.Float.{FloatOps}
use carrier_gateway.Tracker.{EmaState, next_state}
use carrier_gateway.Tracker.Swaps.{
  Cell, Pc, loading, swapping, recorded, Threads, advance, step, run, committed_by, committed_at,
  committed, in_turn,
}

module _ {F : Type 0} (o : FloatOps F) (alpha : F) where
  -- What a goroutine has loaded is not newer than the cell, and as new only if it is the same.
  abbrev pub Coherent : Cell F → Pc F → Type 0
  Coherent cell (swapping l old) =
      (old.version ≤ cell.version) × (cell.version ≡ old.version → old.value ≡ cell.value)
  Coherent cell _ = Unit

  Coherent-self :
      (pc : Pc F) (cell : Cell F)
      → Coherent cell pc
      → Coherent (advance o alpha pc cell).0 (advance o alpha pc cell).1
  unfolding advance
  Coherent-self (loading l) cell c = (omega arith, λ _. refl)
  Coherent-self (swapping l old) cell c = elim (Bool-cases (cell.version == old.version)) [
    | inl h ↦ rw h tt
    | inr h ↦ rw h tt
  ]
  Coherent-self (recorded l) cell c = tt

  Coherent-other :
      (pc qc : Pc F) (cell : Cell F) → Coherent cell qc → Coherent (advance o alpha pc cell).0 qc
  unfolding advance
  Coherent-other pc (loading l) cell c = tt
  Coherent-other pc (recorded l) cell c = tt
  Coherent-other (loading k) (swapping l old) cell c = c
  Coherent-other (recorded k) (swapping l old) cell c = c
  Coherent-other (swapping k seen) (swapping l old) cell c =
      elim (Bool-cases (cell.version == seen.version)) [
        | inl h ↦ rw h (omega arith, λ e. absurd (omega arith))
        | inr h ↦ rw h c
      ]

  advance-value :
      (pc : Pc F) (cell : Cell F)
      → Coherent cell pc
      → (advance o alpha pc cell).0.value
        ≡ in_turn o alpha (committed_by o alpha pc cell) cell.value
  unfolding advance
  advance-value (loading l) cell c = refl
  advance-value (recorded l) cell c = refl
  advance-value (swapping l old) cell c = elim (Bool-cases (cell.version == old.version)) [
    | inl h ↦ rw h (ap (next_state o alpha l) (c.1 ((==_iff _ _).0 h)))
    | inr h ↦ rw h
  ]

  abbrev pub AllCoherent : Threads F → Type 0
  AllCoherent t = All (Coherent t.cell) t.pcs

  All-other :
      (pc : Pc F) (cell : Cell F) (pcs : List (Pc F))
      → All (Coherent cell) pcs
      → All (Coherent (advance o alpha pc cell).0) pcs
  All-other pc cell [] a = tt
  All-other pc cell (qc ∷ pcs) a = (Coherent-other pc qc cell a.0, All-other pc cell pcs a.1)

  All-put :
      (pc : Pc F) (cell : Cell F) (pcs : List (Pc F)) (i : ℕ)
      → get_elem? pcs i ≡ some pc
      → All (Coherent cell) pcs
      → (Coherent cell pc)
        × All (Coherent (advance o alpha pc cell).0) (set pcs i (advance o alpha pc cell).1)
  All-put pc cell [] i e a = cc
  All-put pc cell (qc ∷ pcs) zero e a =
      let same : qc ≡ pc = cc in
      let c = subst (Coherent cell) same a.0 in
      (c, (Coherent-self pc cell c, All-other pc cell pcs a.1))
  All-put pc cell (qc ∷ pcs) (suc i) e a =
      let (c, rest) = All-put pc cell pcs i e a.1 in (c, (Coherent-other pc qc cell a.0, rest))

  step_lem :
      (t : Threads F) (i : ℕ)
      → AllCoherent t
      → AllCoherent (step o alpha t i)
        × ((step o alpha t i).cell.value ≡ in_turn o alpha (committed_at o alpha t i) t.cell.value)
  unfolding step
  step_lem t i a = elim (Option-cases (get_elem? t.pcs i)) [
    | inl e ↦ rw (e, step, committed_at) (a, refl)
    | inr (pc, e) ↦
        let (c, a') = All-put pc t.cell t.pcs i e a in
        rw (e, step, committed_at) (a', advance-value pc t.cell c)
  ]

  in_turn-append :
      (ks ls : List ℤ) (s : EmaState F)
      → in_turn o alpha (ks ++ ls) s ≡ in_turn o alpha ls (in_turn o alpha ks s)
  in_turn-append [] ls s = refl
  in_turn-append (k ∷ ks) ls s = in_turn-append ks ls (next_state o alpha k s)

  run_lem :
      (t : Threads F) (is : List ℕ)
      → AllCoherent t
      → (run o alpha t is).cell.value ≡ in_turn o alpha (committed o alpha t is) t.cell.value
  unfolding run
  run_lem t [] a = refl
  run_lem t (i ∷ is) a =
      let (a', e) = step_lem t i a in
      run_lem (step o alpha t i) is a'
      ∙ ap (in_turn o alpha (committed o alpha (step o alpha t i) is)) e
      ∙ sym (
          in_turn-append (committed_at o alpha t i) (committed o alpha (step o alpha t i) is)
            t.cell.value)

  abbrev pub sum_of : (ℤ → ℕ) → List ℤ → ℕ
  sum_of weight [] = 0
  sum_of weight (l ∷ ls) = weight l + sum_of weight ls

  -- What a goroutine that has returned weighs.
  abbrev pub weigh : (ℤ → ℕ) → Pc F → ℕ
  weigh weight (recorded l) = weight l
  weigh weight _ = 0

  advance-weigh :
      (weight : ℤ → ℕ) (pc : Pc F) (cell : Cell F)
      → weigh weight (advance o alpha pc cell).1
        ≡ weigh weight pc + sum_of weight (committed_by o alpha pc cell)
  unfolding advance
  advance-weigh weight (loading l) cell = refl
  advance-weigh weight (recorded l) cell = omega arith
  advance-weigh weight (swapping l old) cell = elim (Bool-cases (cell.version == old.version)) [
    | inl h ↦ rw h (omega arith)
    | inr h ↦ rw h
  ]

  step-weigh :
      (weight : ℤ → ℕ) (t : Threads F) (i : ℕ)
      → total (weigh weight) (step o alpha t i).pcs
        ≡ total (weigh weight) t.pcs + sum_of weight (committed_at o alpha t i)
  unfolding step
  step-weigh weight t i = elim (Option-cases (get_elem? t.pcs i)) [
    | inl e ↦ rw (e, step, committed_at) (omega arith)
    | inr (pc, e) ↦
        rw (e, step, committed_at)
          (omega (
            arith,
            advance-weigh weight pc t.cell,
            total-set (weigh weight) t.pcs i pc (advance o alpha pc t.cell).1 e,
          ))
  ]

  sum_of-append :
      (weight : ℤ → ℕ) (ks ls : List ℤ)
      → sum_of weight (ks ++ ls) ≡ sum_of weight ks + sum_of weight ls
  sum_of-append weight [] ls = omega arith
  sum_of-append weight (k ∷ ks) ls = omega (arith, sum_of-append weight ks ls)

  run-weigh :
      (weight : ℤ → ℕ) (t : Threads F) (is : List ℕ)
      → total (weigh weight) (run o alpha t is).pcs
        ≡ total (weigh weight) t.pcs + sum_of weight (committed o alpha t is)
  unfolding run
  run-weigh weight t [] = omega arith
  run-weigh weight t (i ∷ is) = omega (
    arith,
    run-weigh weight (step o alpha t i) is,
    step-weigh weight t i,
    sum_of-append weight (committed_at o alpha t i) (committed o alpha (step o alpha t i) is),
  )

  -- Goroutines that are about to record the given latencies in a tracker's state.
  abbrev pub start : EmaState F → List ℤ → Threads F
  start s ls = record { cell = record { version = 0; value = s }; pcs = map loading ls }

  start-AllCoherent :
      (s : EmaState F) (cell : Cell F) (ls : List ℤ) → All (Coherent cell) (map loading ls)
  start-AllCoherent s cell [] = tt
  start-AllCoherent s cell (l ∷ ls) = (tt, start-AllCoherent s cell ls)

  start-weigh :
      (weight : ℤ → ℕ) (ls : List ℤ) → total (weigh weight) (map {B = Pc F} loading ls) ≡ 0
  start-weigh weight [] = refl
  start-weigh weight (l ∷ ls) = omega (arith, start-weigh weight ls)

  -- Under every interleaving, the state is what one goroutine would have made of the committed
  -- latencies in the order of their swaps, and the committed latencies are those of the goroutines
  -- that have returned, as often as these have them (every weight sums to the same): no
  -- observation is lost, and none counts twice.
  pub record_linearises :
      (s : EmaState F) (ls : List ℤ) (is : List ℕ) (weight : ℤ → ℕ)
      → let t = run o alpha (start s ls) is in
        (t.cell.value ≡ in_turn o alpha (committed o alpha (start s ls) is) s)
        × (total (weigh weight) t.pcs ≡ sum_of weight (committed o alpha (start s ls) is))
  record_linearises s ls is weight = (
    run_lem (start s ls) is (start-AllCoherent s (start s ls).cell ls),
    omega (arith, run-weigh weight (start s ls) is, start-weigh weight ls),
  )
