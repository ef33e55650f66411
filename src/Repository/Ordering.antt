-- ===== src/Repository/Ordering.antt =====
-- postgres.go: FindByRequestID selects its rows in the order of their premiums.
use carrier_gateway.Prelude.{
  ℤ, ◌≤ℤ◌, ltb_int, Text, Bool-cases, inl, inr, List, [], ◌∷◌, All, arith,
}
use carrier_gateway.Repository.{Row, select_rows, insert_by_premium, is_live}

-- The rows of a statement with ORDER BY.
abbrev pub RowsByPremium : List Row → Type 0
RowsByPremium [] = Unit
RowsByPremium (r ∷ rs) = All (λ s. r.premium_cents ≤ℤ s.premium_cents) rs × RowsByPremium rs

lower-All :
    (a b : ℤ) (rows : List Row)
    → a ≤ℤ b
    → All (λ s. b ≤ℤ s.premium_cents) rows
    → All (λ s. a ≤ℤ s.premium_cents) rows
lower-All a b [] h k = tt
lower-All a b (r ∷ rows) h k = (omega (arith, k.0), lower-All a b rows h k.1)

insert-All :
    (a : ℤ) (r : Row) (rows : List Row)
    → a ≤ℤ r.premium_cents
    → All (λ s. a ≤ℤ s.premium_cents) rows
    → All (λ s. a ≤ℤ s.premium_cents) (insert_by_premium r rows)
unfolding insert_by_premium
insert-All a r [] h k = (h, tt)
insert-All a r (s ∷ rows) h k = ground (arith, insert-All a r rows h k.1)

insert-RowsByPremium :
    (r : Row) (rows : List Row) → RowsByPremium rows → RowsByPremium (insert_by_premium r rows)
unfolding insert_by_premium
insert-RowsByPremium r [] h = (tt, tt)
insert-RowsByPremium r (s ∷ rows) h = elim (Bool-cases (ltb_int s.premium_cents r.premium_cents)) [
  | inl e ↦
      rw (e) (insert-All s.premium_cents r rows (ground arith) h.0, insert-RowsByPremium r rows h.1)
  | inr e ↦
      rw (e) ((ground arith, lower-All r.premium_cents s.premium_cents rows (ground arith) h.0), h)
]

pub select-RowsByPremium :
    (now : ℤ) (id : Text) (rows : List Row) → RowsByPremium (select_rows now id rows)
unfolding select_rows
select-RowsByPremium now id [] = tt
select-RowsByPremium now id (r ∷ rows) = elim (Bool-cases (is_live now id r)) [
  | inl e ↦
      rw (e) (insert-RowsByPremium r (select_rows now id rows) (select-RowsByPremium now id rows))
  | inr e ↦ rw (e) (select-RowsByPremium now id rows)
]
