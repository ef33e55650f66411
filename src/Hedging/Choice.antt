-- ===== src/Hedging/Choice.antt =====
-- hedging.go, selectHedgeCandidate: the candidate is the best of those that may be chosen.
use mathlib.Core.List.{Memᴰ}
use mathlib.Core.Bool.{false≢true}
use carrier_gateway.Prelude.{
  ltb_int, ◌≡◌, refl, sym, ◌∙◌, Text, text_eq, Bool, true, false, ◌&&◌, ◌||◌, Option, none, some,
  List, [], ◌∷◌, arith, if◌then◌else◌, Bool-cases, inl, inr, All, not,
}
use carrier_gateway.Float.{FloatOps, FloatLaws}
use carrier_gateway.Hedging.{HedgeCarrier, is_open, consider, select_from, select_hedge_candidate}

module _ {F W : Type 0} (o : FloatOps F) (laws : FloatLaws F o) where
  -- A lower latency, or the same latency and a lower priority number.
  abbrev pub beats : HedgeCarrier F W → HedgeCarrier F W → Bool
  beats c b =
      o.lt c.p95_ms b.p95_ms
      || (o.eq c.p95_ms b.p95_ms && ltb_int c.carrier.config.priority b.carrier.config.priority)

  -- It is not the slow carrier itself, and its circuit is not open.
  abbrev pub can_hedge : Text → W → HedgeCarrier F W → Bool
  can_hedge exclude w c = not (text_eq c.carrier.id exclude) && not (is_open (c.cb_state w))

  beats_irrefl : (c : HedgeCarrier F W) → beats c c ≡ false
  beats_irrefl c = ground (arith, laws.lt_irrefl c.p95_ms)

  beats_trans : (a b c : HedgeCarrier F W) → beats a b ≡ true → beats b c ≡ true → beats a c ≡ true
  beats_trans a b c h k = ground (
    arith,
    laws.lt_trans a.p95_ms b.p95_ms c.p95_ms,
    laws.lt-eq a.p95_ms b.p95_ms c.p95_ms,
    laws.eq-lt a.p95_ms b.p95_ms c.p95_ms,
    laws.eq_trans a.p95_ms b.p95_ms c.p95_ms,
  )

  -- No carrier of the list that may be chosen beats the one chosen.
  abbrev pub Unbeaten : Text → W → List (HedgeCarrier F W) → HedgeCarrier F W → Type 0
  Unbeaten exclude w cs best = All (λ c. (can_hedge exclude w c && beats c best) ≡ false) cs

  winner : Text → W → HedgeCarrier F W → HedgeCarrier F W → HedgeCarrier F W
  winner exclude w b c = if can_hedge exclude w c && beats c b then c else b

  consider-none :
      (exclude : Text) (w : W) (c : HedgeCarrier F W)
      → consider o exclude w none c ≡ (if can_hedge exclude w c then some c else none)
  unfolding consider
  consider-none exclude w c = ground arith

  consider-some :
      (exclude : Text) (w : W) (b c : HedgeCarrier F W)
      → consider o exclude w (some b) c ≡ some (winner exclude w b c)
  unfolding consider winner
  consider-some exclude w b c = ground arith

  -- What beats the winner beats the one it was compared with.
  winner_mono :
      (exclude : Text) (w : W) (x b c : HedgeCarrier F W)
      → beats x (winner exclude w b c) ≡ true
      → beats x b ≡ true
  unfolding winner
  winner_mono exclude w x b c h = elim (Bool-cases (can_hedge exclude w c && beats c b)) [
    | inl e ↦ beats_trans x c b (rw e at h) (ground (arith, e))
    | inr e ↦ rw e at h
  ]

  winner-unbeaten :
      (exclude : Text) (w : W) (b c : HedgeCarrier F W)
      → (can_hedge exclude w c && beats c (winner exclude w b c)) ≡ false
  unfolding winner
  winner-unbeaten exclude w b c = elim (Bool-cases (can_hedge exclude w c && beats c b)) [
    | inl e ↦ rw (e, winner) (rw (beats_irrefl c) (ground arith))
    | inr e ↦ rw (e, winner) e
  ]

  winner-can_hedge :
      (exclude : Text) (w : W) (b c : HedgeCarrier F W)
      → can_hedge exclude w b ≡ true
      → can_hedge exclude w (winner exclude w b c) ≡ true
  unfolding winner
  winner-can_hedge exclude w b c h = elim (Bool-cases (can_hedge exclude w c && beats c b)) [
    | inl e ↦ rw (e, winner) (ground (arith, e))
    | inr e ↦ rw (e, winner) h
  ]

  mem-insert :
      (b c r : HedgeCarrier F W) (cs : List (HedgeCarrier F W))
      → Memᴰ r (b ∷ cs)
      → Memᴰ r (b ∷ c ∷ cs)
  mem-insert b c r cs (Memᴰ.head e) = Memᴰ.head e
  mem-insert b c r cs (Memᴰ.tail m) = Memᴰ.tail (Memᴰ.tail m)

  winner-mem :
      (exclude : Text) (w : W) (b c r : HedgeCarrier F W) (cs : List (HedgeCarrier F W))
      → Memᴰ r (winner exclude w b c ∷ cs)
      → Memᴰ r (b ∷ c ∷ cs)
  unfolding winner
  winner-mem exclude w b c r cs m = elim (Bool-cases (can_hedge exclude w c && beats c b)) [
    | inl e ↦ Memᴰ.tail (rw e at m)
    | inr e ↦ mem-insert b c r cs (rw e at m)
  ]

  -- A search that has a best carrier already.
  record Outcome (exclude : Text) (w : W) (b : HedgeCarrier F W) (cs : List (HedgeCarrier F W))
      (found : Option (HedgeCarrier F W)) : Type 0 where
    best : HedgeCarrier F W
    is_found : found ≡ some best
    mem : Memᴰ best (b ∷ cs)
    may : can_hedge exclude w best ≡ true
    mono : (x : HedgeCarrier F W) → beats x best ≡ true → beats x b ≡ true
    unbeaten : Unbeaten exclude w cs best

  search_from :
      (exclude : Text) (w : W) (b : HedgeCarrier F W) (cs : List (HedgeCarrier F W))
      → can_hedge exclude w b ≡ true
      → Outcome exclude w b cs (select_from o exclude w (some b) cs)
  unfolding select_from
  search_from exclude w b [] h = record {
    best = b;
    is_found = refl;
    mem = Memᴰ.head refl;
    may = h;
    mono = λ x k. k;
    unbeaten = tt;
  }
  search_from exclude w b (c ∷ cs) h =
      let b' = winner exclude w b c in
      let r = search_from exclude w b' cs (winner-can_hedge exclude w b c h) in
      record {
        best = r.best;
        is_found = rw (consider-some exclude w b c) r.is_found;
        mem = winner-mem exclude w b c r.best cs r.mem;
        may = r.may;
        mono = λ x k. winner_mono exclude w x b c (r.mono x k);
        unbeaten = (kept r.best (r.mono c), r.unbeaten);
      }
    where
      kept :
          (best : HedgeCarrier F W)
          → (beats c best ≡ true → beats c (winner exclude w b c) ≡ true)
          → (can_hedge exclude w c && beats c best) ≡ false
      kept best down = elim (Bool-cases (beats c best)) [
        | inl e ↦ rw e (rw (down e) at (winner-unbeaten exclude w b c))
        | inr e ↦ rw e (ground arith)
      ]

  unbeaten_self :
      (exclude : Text) (w : W) (c best : HedgeCarrier F W)
      → (beats c best ≡ true → beats c c ≡ true)
      → (can_hedge exclude w c && beats c best) ≡ false
  unbeaten_self exclude w c best mono = elim (Bool-cases (beats c best)) [
    | inl e ↦ absurd (false≢true (sym (beats_irrefl c) ∙ mono e))
    | inr e ↦ rw e (ground arith)
  ]

  -- What the search promises of its result.
  abbrev pub IsChosen : Text → W → List (HedgeCarrier F W) → Option (HedgeCarrier F W) → Type 0
  IsChosen exclude w cs none = All (λ c. can_hedge exclude w c ≡ false) cs
  IsChosen exclude w cs (some best) =
      Memᴰ best cs × (can_hedge exclude w best ≡ true) × Unbeaten exclude w cs best

  IsChosen-from :
      (exclude : Text) (w : W) (cs : List (HedgeCarrier F W))
      → IsChosen exclude w cs (select_from o exclude w none cs)
  unfolding select_from
  IsChosen-from exclude w [] = tt
  IsChosen-from exclude w (c ∷ cs) = elim (Bool-cases (can_hedge exclude w c)) [
    | inl e ↦
        let r = search_from exclude w c cs e in
        rw (consider-none exclude w c, e, r.is_found)
          (r.mem, r.may, (unbeaten_self exclude w c r.best (r.mono c), r.unbeaten))
    | inr e ↦
        rw (consider-none exclude w c, e)
          (skip e (select_from o exclude w none cs) (IsChosen-from exclude w cs))
  ]
    where
      skip :
          can_hedge exclude w c ≡ false
          → (found : Option (HedgeCarrier F W)) → IsChosen exclude w cs found
          → IsChosen exclude w (c ∷ cs) found
      skip e none a = (e, a)
      skip e (some best) (m, h, u) = (Memᴰ.tail m, h, (rw e refl, u))

  -- The search finds a carrier exactly if one may be chosen, and then one that may be chosen and
  -- that no other such carrier beats, by latency first and priority second.
  pub select_is_best :
      (exclude : Text) (w : W) (cs : List (HedgeCarrier F W))
      → IsChosen exclude w cs (select_hedge_candidate o exclude w cs)
  unfolding select_hedge_candidate
  select_is_best exclude w cs = IsChosen-from exclude w cs
