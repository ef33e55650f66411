-- ===== src/Orchestrator/Order.antt =====
-- orchestrator.go, the comparison of quotes is a total order on quotes of different carriers, so
-- that the sorted answer does not depend on the order in which the quotes arrived.
use carrier_gateway.Prelude.{
  ◌≡◌, ◌≢◌, refl, Text, text_cmp, Bool, true, false, List, [], ◌∷◌, arith, All, Bool-cases, inl,
  inr,
}
use carrier_gateway.Domain.{QuoteResult}
use carrier_gateway.Orchestrator.Collect.{quote_cmp, is_gt, sorted_insert, sort_quotes}

text_le_trans :
    (s t u : Text)
    → is_gt (text_cmp s t) ≡ false
    → is_gt (text_cmp t u) ≡ false
    → is_gt (text_cmp s u) ≡ false
unfolding text_cmp
text_le_trans [] [] u h k = k
text_le_trans [] (c ∷ t) [] h k = cc
text_le_trans [] (c ∷ t) (d ∷ u) h k = refl
text_le_trans (b ∷ s) [] u h k = cc
text_le_trans (b ∷ s) (c ∷ t) [] h k = cc
text_le_trans (b ∷ s) (c ∷ t) (d ∷ u) h k = ground (arith, text_le_trans s t u)

text_le_total : (s t : Text) → is_gt (text_cmp s t) ≡ true → is_gt (text_cmp t s) ≡ false
unfolding text_cmp
text_le_total [] [] h = cc
text_le_total [] (c ∷ t) h = cc
text_le_total (b ∷ s) [] h = refl
text_le_total (b ∷ s) (c ∷ t) h = ground (arith, text_le_total s t)

text_le_antisym : (s t : Text) → is_gt (text_cmp s t) ≡ false → is_gt (text_cmp t s) ≡ false → s ≡ t
unfolding text_cmp
text_le_antisym [] [] h k = refl
text_le_antisym [] (c ∷ t) h k = cc
text_le_antisym (b ∷ s) [] h k = cc
text_le_antisym (b ∷ s) (c ∷ t) h k = ground (arith, text_le_antisym s t)

abbrev pub after : QuoteResult → QuoteResult → Bool
after a b = is_gt (quote_cmp a b)

after_trans : (a b c : QuoteResult) → after a b ≡ false → after b c ≡ false → after a c ≡ false
unfolding quote_cmp
after_trans a b c h k = ground (arith, text_le_trans a.carrier_id b.carrier_id c.carrier_id)

after-total : (a b : QuoteResult) → after a b ≡ true → after b a ≡ false
unfolding quote_cmp
after-total a b h = ground (arith, text_le_total a.carrier_id b.carrier_id)

after-antisym :
    (a b : QuoteResult) → after a b ≡ false → after b a ≡ false → a.carrier_id ≡ b.carrier_id
unfolding quote_cmp
after-antisym a b h k = ground (arith, text_le_antisym a.carrier_id b.carrier_id)

-- No quote comes after the one behind it, nor after any later one.
abbrev pub Ascending : List QuoteResult → Type 0
Ascending [] = Unit
Ascending (r ∷ rs) = All (λ s. after r s ≡ false) rs × Ascending rs

All-after :
    (a b : QuoteResult) (rs : List QuoteResult)
    → after a b ≡ false
    → All (λ s. after b s ≡ false) rs
    → All (λ s. after a s ≡ false) rs
All-after a b [] h k = tt
All-after a b (c ∷ rs) h k = (after_trans a b c h k.0, All-after a b rs h k.1)

insert-All :
    (r a : QuoteResult) (rs : List QuoteResult)
    → after r a ≡ false
    → All (λ s. after r s ≡ false) rs
    → All (λ s. after r s ≡ false) (sorted_insert a rs)
unfolding sorted_insert
insert-All r a [] h k = (h, tt)
insert-All r a (b ∷ rs) h k = elim (Bool-cases (after a b)) [
  | inl e ↦ rw e (k.0, insert-All r a rs h k.1)
  | inr e ↦ rw e (h, k)
]

insert-Ascending :
    (a : QuoteResult) (rs : List QuoteResult) → Ascending rs → Ascending (sorted_insert a rs)
unfolding sorted_insert
insert-Ascending a [] k = (tt, tt)
insert-Ascending a (b ∷ rs) k = elim (Bool-cases (after a b)) [
  | inl e ↦ rw e (insert-All b a rs (after-total a b e) k.0, insert-Ascending a rs k.1)
  | inr e ↦ rw e ((e, All-after a b rs e k.0), k)
]

pub sort-Ascending : (rs : List QuoteResult) → Ascending (sort_quotes rs)
unfolding sort_quotes
sort-Ascending [] = tt
sort-Ascending (r ∷ rs) = insert-Ascending r (sort_quotes rs) (sort-Ascending rs)

-- Two quotes of different carriers can be inserted in either order.
pub insert_comm :
    (a b : QuoteResult) (rs : List QuoteResult)
    → a.carrier_id ≢ b.carrier_id
    → sorted_insert a (sorted_insert b rs) ≡ sorted_insert b (sorted_insert a rs)
unfolding sorted_insert
insert_comm a b [] d = ground (arith, after-total a b, after-antisym a b)
insert_comm a b (c ∷ rs) d = ground (
  arith,
  after-total a b,
  after-total b a,
  after-antisym a b,
  after_trans a b c,
  after_trans b a c,
  after-total a c,
  after-total b c,
  after_trans a c b,
  after_trans b c a,
  after-total c b,
  after-total c a,
  insert_comm a b rs,
)
