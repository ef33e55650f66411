-- ===== src/Command/Start.antt =====
-- The gateway that main.go starts: every carrier is equipped, and no circuit is open.
use carrier_gateway.Prelude.{
  ◌≡◌, ◌⊎◌, ◌↔◌, inl, inr, refl, sym, Text, text_eq, text_eq_iff, true, false, List, [], ◌∷◌, All,
  arith, Bool-cases,
}
use mathlib.Core.Path.{subst}
use carrier_gateway.Prelude.Maps.{lookup, insert, lookup-insert_self, member}
use carrier_gateway.Domain.{Carrier, Context, QuoteRequest}
use carrier_gateway.Float.{FloatOps}
use carrier_gateway.Breaker.{Breaker, start_breaker, new_breaker}
use carrier_gateway.Limiter.{TokenBucket}
use carrier_gateway.Hedging.{is_open}
use carrier_gateway.Orchestrator.State.{Gateway, Orchestrator}
use carrier_gateway.Orchestrator.Eligible.{is_shut_out, has_capability, filter_eligible}
use carrier_gateway.Orchestrator.Launch.{Schedule}
use carrier_gateway.Orchestrator.Quotes.{get_quotes}
use carrier_gateway.Orchestrator.Answers.{Sharing, Serves, get_quotes-Serves}
use carrier_gateway.Orchestrator.Equipped.{Has, Equipped, insert-Has}
use carrier_gateway.Orchestrator.Total.{Tame}
use carrier_gateway.Orchestrator.Serving.{ids}
use carrier_gateway.Command.Assembly.{equip, equip_all}

insert-Has_self : {V : Type 0} (k : Text) (v : V) (m : List (Text × V)) → Has k (insert k v m)
insert-Has_self k v m e = absurd (ground (arith, lookup-insert_self k v m))

-- No breaker of the map is open.
abbrev pub NoneOpen : List (Text × Breaker) → Type 0
NoneOpen = All (λ e. is_open e.1.state ≡ false)

insert-NoneOpen :
    (k : Text) (b : Breaker) (m : List (Text × Breaker))
    → is_open b.state ≡ false
    → NoneOpen m
    → NoneOpen (insert k b m)
unfolding insert
insert-NoneOpen k b [] e h = (e, tt)
insert-NoneOpen k b ((j, c) ∷ m) e h = ground (arith, insert-NoneOpen k b m e h.1)

NoneOpen-is_shut_out : (k : Text) (m : List (Text × Breaker)) → NoneOpen m → is_shut_out m k ≡ false
unfolding is_shut_out lookup
NoneOpen-is_shut_out k [] h = refl
NoneOpen-is_shut_out k ((j, c) ∷ m) h = ground (arith, NoneOpen-is_shut_out k m h.1)

-- The text is one of the list.
abbrev pub In : Text → List Text → Type 0
In l [] = ⊥
In l (x ∷ xs) = (x ≡ l) ⊎ In l xs

-- A requested line is among the capabilities.
abbrev pub Offers : List Text → List Text → Type 0
Offers lines caps = (l : Text) × (In l lines × In l caps)

-- The first list without the carriers that offer none of the lines is the second.
abbrev pub Chosen : {F : Type 0} → List Text → List (Carrier F) → List (Carrier F) → Type 0
Chosen lines [] out = out ≡ []
Chosen lines (c ∷ cs) out =
    (Offers lines c.capabilities
      × ((rest : List (Carrier _)) × ((out ≡ c ∷ rest) × Chosen lines cs rest)))
    ⊎ ((¬ (Offers lines c.capabilities)) × Chosen lines cs out)

member_iff : (l : Text) (xs : List Text) → (member l xs ≡ true) ↔ In l xs
unfolding member
member_iff l [] = ground arith
member_iff l (x ∷ xs) = (
  λ h. elim (Bool-cases (text_eq x l)) [
    | inl e ↦ inl ((text_eq_iff x l).0 e)
    | inr e ↦ inr ((member_iff l xs).0 (ground arith))
  ],
  λ h. elim h [
    | inl e ↦ ground (arith, (text_eq_iff x l).1 e)
    | inr i ↦ ground (arith, (member_iff l xs).1 i)
  ],
)

has_capability_iff :
    (lines caps : List Text) → (has_capability lines caps ≡ true) ↔ Offers lines caps
unfolding has_capability
has_capability_iff lines [] = (λ h. absurd (ground arith), λ h. absurd h.1.1)
has_capability_iff lines (c ∷ caps) = (
  λ h. elim (Bool-cases (member c lines)) [
    | inl e ↦ (c, ((member_iff c lines).0 e, inl refl))
    | inr e ↦ let (l, (i, j)) = (has_capability_iff lines caps).0 (ground arith) in (l, (i, inr j))
  ],
  λ h. elim h.1.1 [
    | inl e ↦ ground (arith, (member_iff c lines).1 (subst (λ x. In x lines) (sym e) h.1.0))
    | inr j ↦ ground (arith, (has_capability_iff lines caps).1 (h.0, (h.1.0, j)))
  ],
)

filter_eligible-Chosen :
    {F : Type 0} (m : List (Text × Breaker)) (lines : List Text) (cs : List (Carrier F))
    → NoneOpen m
    → Chosen lines cs (filter_eligible m lines cs)
unfolding filter_eligible
filter_eligible-Chosen m lines [] h = refl
filter_eligible-Chosen m lines (c ∷ cs) h =
    let offers = has_capability_iff lines c.capabilities in
    rw (NoneOpen-is_shut_out c.id m h) (elim (Bool-cases (has_capability lines c.capabilities)) [
      | inl e ↦ rw e (
          inl
            (offers.0 e, (filter_eligible m lines cs, (refl, filter_eligible-Chosen m lines cs h))))
      | inr e ↦
          rw e (inr (λ o. absurd (ground (arith, offers.1 o)), filter_eligible-Chosen m lines cs h))
    ])

module _ {F B : Type 0} (o : FloatOps F) (tb : TokenBucket F B (Gateway F B)) where
  equip_self : (c : Carrier F) (g : Gateway F B) → Equipped (equip o tb c g) c.id
  unfolding equip start_breaker
  equip_self c g = (
    insert-Has_self c.id _ g.breakers,
    (insert-Has_self c.id _ g.limiters, insert-Has_self c.id _ g.trackers),
  )

  equip-keeps :
      (c : Carrier F) (g : Gateway F B) (k : Text) → Equipped g k → Equipped (equip o tb c g) k
  unfolding equip start_breaker
  equip-keeps c g k h = (
    insert-Has c.id k _ g.breakers h.0,
    (insert-Has c.id k _ g.limiters h.1.0, insert-Has c.id k _ g.trackers h.1.1),
  )

  equip_all-keeps :
      (cs : List (Carrier F)) (g : Gateway F B) (k : Text)
      → Equipped g k
      → Equipped (equip_all o tb cs g) k
  unfolding equip_all
  equip_all-keeps [] g k h = h
  equip_all-keeps (c ∷ cs) g k h = equip_all-keeps cs (equip o tb c g) k (equip-keeps c g k h)

  -- Every carrier of the list gets a breaker, a limiter and a tracker.
  pub equip_all-equips :
      (cs : List (Carrier F)) (g : Gateway F B) → All (Equipped (equip_all o tb cs g)) (ids cs)
  unfolding equip_all
  equip_all-equips [] g = tt
  equip_all-equips (c ∷ cs) g = (
    equip_all-keeps cs (equip o tb c g) c.id (equip_self c g),
    equip_all-equips cs (equip o tb c g),
  )

  equip-NoneOpen :
      (c : Carrier F) (g : Gateway F B) → NoneOpen g.breakers → NoneOpen (equip o tb c g).breakers
  unfolding equip start_breaker new_breaker
  equip-NoneOpen c g h = insert-NoneOpen c.id _ g.breakers refl h

  equip_all-NoneOpen :
      (cs : List (Carrier F)) (g : Gateway F B)
      → NoneOpen g.breakers
      → NoneOpen (equip_all o tb cs g).breakers
  unfolding equip_all
  equip_all-NoneOpen [] g h = h
  equip_all-NoneOpen (c ∷ cs) g h = equip_all-NoneOpen cs (equip o tb c g) (equip-NoneOpen c g h)

  -- At the start the eligible carriers are those that offer one of the lines.
  pub start-eligible :
      (cs : List (Carrier F)) (g : Gateway F B) (lines : List Text)
      → NoneOpen g.breakers
      → Chosen lines cs (filter_eligible (equip_all o tb cs g).breakers lines cs)
  start-eligible cs g lines h =
      filter_eligible-Chosen (equip_all o tb cs g).breakers lines cs (equip_all-NoneOpen cs g h)

  -- The first call of GetQuotes returns, whatever the carriers of the orchestrator are, if the code
  -- that it calls leaves the maps of the orchestrator alone.
  pub start-get_quotes :
      (orch : Orchestrator F B) (g : Gateway F B) (sched : Schedule F B)
      (ctx : Context (Gateway F B)) (req : QuoteRequest)
      → Tame tb orch sched
      → Sharing o tb orch
      → Serves o tb orch (get_quotes o tb orch sched ctx req (equip_all o tb orch.carriers g))
  start-get_quotes orch g sched ctx req tame sharing =
      get_quotes-Serves o tb orch sched ctx req tame sharing (equip_all o tb orch.carriers g)
        (equip_all-equips orch.carriers g)
