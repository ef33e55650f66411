-- ===== src/Orchestrator/Collect.antt =====
-- orchestrator.go, the end of fanOut: one result for each carrier, sorted by premium, then by
-- carrier. `slices.SortFunc` is an insertion sort here: Order.antt shows that no sorting algorithm
-- could return another list.
use Prim.Native.Nat.{compare, Ordering}
use carrier_gateway.Prelude.{
  ◌+◌, ℤ, pos_part, neg_part, Text, text_cmp, Bool, true, false, List, [], ◌∷◌, if◌then◌else◌,
}
use carrier_gateway.Prelude.Maps.{member}
use carrier_gateway.Domain.{QuoteResult}

-- The loop over the results channel: `seen` has the carriers of the results kept so far.
unfoldable pub collect : List Text → List QuoteResult → List QuoteResult
collect seen [] = []
collect seen (r ∷ rs) =
    let duplicate = member r.carrier_id seen in
    let rest = collect (if duplicate then seen else r.carrier_id ∷ seen) rs in
    if duplicate then rest else r ∷ rest

-- `cmp.Compare` of two int64 numbers.
abbrev pub int_cmp : ℤ → ℤ → Ordering
int_cmp a b = compare (pos_part a + neg_part b) (pos_part b + neg_part a)

-- The comparison given to SortFunc.
unfoldable pub quote_cmp : QuoteResult → QuoteResult → Ordering
quote_cmp a b = elim (int_cmp a.premium.amount b.premium.amount) [
  | Ordering.lt ↦ Ordering.lt
  | Ordering.eq ↦ text_cmp a.carrier_id b.carrier_id
  | Ordering.gt ↦ Ordering.gt
]

abbrev pub is_gt : Ordering → Bool
is_gt Ordering.gt = true
is_gt Ordering.eq = false
is_gt Ordering.lt = false

unfoldable pub sorted_insert : QuoteResult → List QuoteResult → List QuoteResult
sorted_insert a [] = a ∷ []
sorted_insert a (b ∷ rs) = if is_gt (quote_cmp a b) then b ∷ sorted_insert a rs else a ∷ b ∷ rs

unfoldable pub sort_quotes : List QuoteResult → List QuoteResult
unfolding sorted_insert
sort_quotes [] = []
sort_quotes (r ∷ rs) = sorted_insert r (sort_quotes rs)
