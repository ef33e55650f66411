-- ===== src/Orchestrator/Arrival.antt =====
-- orchestrator.go, the end of fanOut: what the order in which results arrive can change.
use mathlib.Core.List.{Permᴰ}
use mathlib.Core.List.Permᴰ
use mathlib.Core.Quot
use mathlib.Core.Quot.{Quot, Quot-set}
use mathlib.Core.Path.{subst, subst₂, ap₂}
use carrier_gateway.Prelude.{
  All-perm, Bool-cases, inl, inr, ◌↔◌, ◌≡◌, ◌≢◌, refl, sym, ◌∙◌, ap, Text, text_eq_iff, List, [],
  ◌∷◌, arith, All,
}
use carrier_gateway.Prelude.Maps.{member}
use carrier_gateway.Domain.{QuoteResult}
use carrier_gateway.Orchestrator.Collect.{collect, sorted_insert, sort_quotes}
use carrier_gateway.Orchestrator.Order.{after, insert_comm}
use carrier_gateway.Orchestrator.Dedup.{OneEach, Unseen, member-self_or}

-- Sorting quotes of different carriers forgets the order in which they came.
sort-perm :
    {xs ys : List QuoteResult}
    → Permᴰ xs ys
    → OneEach xs
    → (sort_quotes xs ≡ sort_quotes ys) × OneEach ys
unfolding sort_quotes
sort-perm Permᴰ.nil h = (refl, tt)
sort-perm (Permᴰ.cons {l₂ = l} e p) h =
    let (same, one) = sort-perm p h.1 in
    (
      ap₂ sorted_insert e same,
      (
        subst (λ (x : QuoteResult). All (λ s. x.carrier_id ≢ s.carrier_id) l) e (All-perm _ p h.0),
        one,
      ),
    )
sort-perm (Permᴰ.swap {a = a} {b = b} {l = l} e f) h = (
  insert_comm a b (sort_quotes l) h.0.0
      ∙ ap₂ (λ (x y : QuoteResult). sorted_insert x (sorted_insert y (sort_quotes l))) f e,
  subst₂ (λ (x y : QuoteResult). OneEach (x ∷ y ∷ l)) f e
      (((λ q. h.0.0 (sym q)), h.1.0), (h.0.1, h.1.1)),
)
sort-perm (Permᴰ.trans p q) h =
    let (e, h') = sort-perm p h in let (e', h'') = sort-perm q h' in (e ∙ e', h'')

Unseen-more :
    (j : Text) (seen : List Text) (rs : List QuoteResult)
    → All (λ s. j ≢ s.carrier_id) rs
    → Unseen seen rs
    → Unseen (j ∷ seen) rs
Unseen-more j seen [] d u = tt
Unseen-more j seen (r ∷ rs) d u = (
  ground (arith, member-self_or r.carrier_id j seen, text_eq_iff j r.carrier_id),
  Unseen-more j seen rs d.1 u.1,
)

collect-id :
    (seen : List Text) (rs : List QuoteResult) → OneEach rs → Unseen seen rs → collect seen rs ≡ rs
unfolding collect
collect-id seen [] h u = refl
collect-id seen (r ∷ rs) h u =
    rw (u.0, collect)
      (ap (◌∷◌ r)
        (collect-id (r.carrier_id ∷ seen) rs h.1 (Unseen-more r.carrier_id seen rs h.0 u.1)))

Unseen-nil : (rs : List QuoteResult) → Unseen [] rs
unfolding member
Unseen-nil [] = tt
Unseen-nil (r ∷ rs) = (refl, Unseen-nil rs)

-- If each carrier sends one result at most, the answer is the same in whatever order they arrive.
answer_order_free :
    {xs ys : List QuoteResult}
    → Permᴰ xs ys
    → OneEach xs
    → sort_quotes (collect [] xs) ≡ sort_quotes (collect [] ys)
answer_order_free {xs} {ys} p one =
    let (same, one') = sort-perm p one in
    ap sort_quotes (collect-id [] xs one (Unseen-nil xs))
    ∙ same
    ∙ ap sort_quotes (sym (collect-id [] ys one' (Unseen-nil ys)))

sorted_insert-perm : (a : QuoteResult) (xs : List QuoteResult) → Permᴰ (a ∷ xs) (sorted_insert a xs)
unfolding sorted_insert
sorted_insert-perm a [] = Permᴰ.refl (a ∷ [])
sorted_insert-perm a (b ∷ xs) = elim (Bool-cases (after a b)) [
  | inl e ↦
      rw (e, sorted_insert)
        (Permᴰ.trans (Permᴰ.swap refl refl) (Permᴰ.cons refl (sorted_insert-perm a xs)))
  | inr e ↦ rw (e, sorted_insert) (Permᴰ.refl (a ∷ b ∷ xs))
]

sort_quotes-perm : (xs : List QuoteResult) → Permᴰ xs (sort_quotes xs)
unfolding sort_quotes
sort_quotes-perm [] = Permᴰ.nil
sort_quotes-perm (x ∷ xs) =
    Permᴰ.trans (Permᴰ.cons refl (sort_quotes-perm xs)) (sorted_insert-perm x (sort_quotes xs))

answer-perm : (xs : List QuoteResult) → OneEach xs → Permᴰ xs (sort_quotes (collect [] xs))
answer-perm xs one =
    subst (λ c. Permᴰ xs (sort_quotes c)) (sym (collect-id [] xs one (Unseen-nil xs)))
      (sort_quotes-perm xs)

-- If each carrier sends one result at most, two answers are the same exactly if the results that
-- arrived are, in whatever order.
pub answers_agree_iff :
    (xs ys : List QuoteResult)
    → OneEach xs
    → OneEach ys
    → (sort_quotes (collect [] xs) ≡ sort_quotes (collect [] ys)) ↔ Permᴰ xs ys
answers_agree_iff xs ys one two = (
  (λ e.
      Permᴰ.trans (answer-perm xs one)
        (subst (λ zs. Permᴰ zs ys) (sym e) (Permᴰ.symm (answer-perm ys two)))),
  (λ p. answer_order_free p one),
)

-- The results of different carriers without their order, and the answer as a function of them.
quotes_set : IsSet (List QuoteResult)
quotes_set = hlevel

abbrev Arrived : Type 0
Arrived = (xs : List QuoteResult) × OneEach xs

abbrev SameResults : Arrived → Arrived → Type 0
SameResults a b = Permᴰ a.0 b.0

abbrev Arrivals : Type 0
Arrivals = Quot SameResults

answer_of : Arrivals → List QuoteResult
answer_of =
    Quot.lift quotes_set (λ a. sort_quotes (collect [] a.0)) (λ a b p. answer_order_free p a.1)

arrivals_set : IsSet Arrivals
arrivals_set = Quot-set

-- Nothing of them is lost.
answer_of-inj : (a b : Arrivals) → answer_of a ≡ answer_of b → a ≡ b
unfolding answer_of
answer_of-inj =
    Quot.ind (λ a. hlevel arrivals_set)
      (λ xs.
        Quot.ind (λ b. hlevel arrivals_set)
          (λ ys e. Quot.sound ((answers_agree_iff xs.0 ys.0 xs.1 ys.1).0 e)))
