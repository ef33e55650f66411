-- ===== src/Repository/Table.antt =====
-- postgres.go: what the table holds after the statements, and what a look-up finds.
use carrier_gateway.Prelude.{
  ℤ, Text, text_eq_iff, true, false, Option, none, some, List, [], ◌∷◌, ◌++◌, arith, ◌≡◌, refl,
  Bool-cases, inl, inr, ◌⊎◌, ap, ◌∙◌, if◌then◌else◌, All, ◌≤ℤ◌,
}
use carrier_gateway.Domain.{ok, QuoteResult, Error}
use carrier_gateway.Repository.{
  Row, same_key, has_key, insert_row, row_of, insert_all, save, is_live, select_rows,
  find_by_request_id, results_of, found, keep_live, delete_expired,
}

-- No two rows have one key.
abbrev pub UniqueKeys : List Row → Type 0
UniqueKeys [] = Unit
UniqueKeys (r ∷ rows) = (has_key r rows ≡ false) × UniqueKeys rows

same_key_comm : (r s : Row) → same_key r s ≡ same_key s r
unfolding same_key
same_key_comm r s = ground (
  arith,
  text_eq_iff r.request_id s.request_id,
  text_eq_iff s.request_id r.request_id,
  text_eq_iff r.carrier_id s.carrier_id,
  text_eq_iff s.carrier_id r.carrier_id,
)

has_key-append :
    (r s : Row) (rows : List Row)
    → has_key r (rows ++ s ∷ []) ≡ (if has_key r rows then true else same_key s r)
unfolding has_key
has_key-append r s [] = ground arith
has_key-append r s (t ∷ rows) = ground (arith, has_key-append r s rows)

append-UniqueKeys :
    (r : Row) (rows : List Row)
    → has_key r rows ≡ false
    → UniqueKeys rows
    → UniqueKeys (rows ++ r ∷ [])
unfolding has_key
append-UniqueKeys r [] h u = (refl, tt)
append-UniqueKeys r (s ∷ rows) h u = (
  ground (arith, has_key-append s r rows, same_key_comm r s),
  append-UniqueKeys r rows (ground arith) u.1,
)

insert_row-UniqueKeys :
    (r : Row) (rows : List Row) → UniqueKeys rows → UniqueKeys (insert_row r rows)
unfolding insert_row
insert_row-UniqueKeys r rows u = elim (Bool-cases (has_key r rows)) [
  | inl e ↦ rw (e, insert_row) u
  | inr e ↦ rw (e, insert_row) (append-UniqueKeys r rows e u)
]

insert_all-UniqueKeys :
    (id : Text) (results : List QuoteResult) (rows : List Row)
    → UniqueKeys rows
    → UniqueKeys (insert_all id results rows)
unfolding insert_all
insert_all-UniqueKeys id [] rows u = u
insert_all-UniqueKeys id (res ∷ results) rows u =
    insert_all-UniqueKeys id results (insert_row (row_of id res) rows)
      (insert_row-UniqueKeys (row_of id res) rows u)

select-keep :
    (before now : ℤ) (id : Text) (rows : List Row)
    → before ≤ℤ now
    → select_rows now id (keep_live before rows) ≡ select_rows now id rows
unfolding select_rows keep_live is_live
select-keep before now id [] h = refl
select-keep before now id (r ∷ rows) h = ground (arith, select-keep before now id rows h)

insert_row-has_key_self : (r : Row) (rows : List Row) → has_key r (insert_row r rows) ≡ true
unfolding insert_row same_key
insert_row-has_key_self r rows = ground (
  arith,
  has_key-append r r rows,
  text_eq_iff r.request_id r.request_id,
  text_eq_iff r.carrier_id r.carrier_id,
)

insert_row-has_key :
    (r s : Row) (rows : List Row) → has_key r rows ≡ true → has_key r (insert_row s rows) ≡ true
unfolding insert_row
insert_row-has_key r s rows h = ground (arith, has_key-append r s rows)

insert_all-has_key :
    (id : Text) (results : List QuoteResult) (r : Row) (rows : List Row)
    → has_key r rows ≡ true
    → has_key r (insert_all id results rows) ≡ true
unfolding insert_all
insert_all-has_key id [] r rows h = h
insert_all-has_key id (res ∷ results) r rows h =
    insert_all-has_key id results r (insert_row (row_of id res) rows)
      (insert_row-has_key r (row_of id res) rows h)

-- Each result has a row with its key.
abbrev pub AllKnown : Text → List Row → List QuoteResult → Type 0
AllKnown id rows = All (λ res. has_key (row_of id res) rows ≡ true)

insert_all-AllKnown :
    (id : Text) (results : List QuoteResult) (rows : List Row)
    → AllKnown id (insert_all id results rows) results
unfolding insert_all
insert_all-AllKnown id [] rows = tt
insert_all-AllKnown id (res ∷ results) rows = (
  insert_all-has_key id results (row_of id res) (insert_row (row_of id res) rows)
      (insert_row-has_key_self (row_of id res) rows),
  insert_all-AllKnown id results (insert_row (row_of id res) rows),
)

insert_all-known :
    (id : Text) (results : List QuoteResult) (rows : List Row)
    → AllKnown id rows results
    → insert_all id results rows ≡ rows
unfolding insert_all insert_row
insert_all-known id [] rows h = refl
insert_all-known id (res ∷ results) rows h =
    rw (h.0, insert_row) (insert_all-known id results rows h.1)

-- Saving the same results under the same id a second time changes nothing, and the rows keep
-- distinct primary keys if they have them.
pub save-idempotent :
    (id : Text) (results : List QuoteResult) (rows : List Row)
    → UniqueKeys rows
    → let after = (save none id results rows).0 in
      UniqueKeys after × ((save none id results after).0 ≡ after)
unfolding save
save-idempotent id results rows u = (
  insert_all-UniqueKeys id results rows u,
  insert_all-known id results (insert_all id results rows) (insert_all-AllKnown id results rows),
)

-- DeleteExpired, run at some time and whether it fails or not, changes no look-up at that time or
-- later.
pub delete_expired-find :
    (failure looked : Option Error) (before now : ℤ) (id : Text) (rows : List Row)
    → before ≤ℤ now
    → find_by_request_id looked now id (delete_expired failure before rows).0
      ≡ find_by_request_id looked now id rows
unfolding find_by_request_id delete_expired
delete_expired-find (some e) looked before now id rows h = refl
delete_expired-find none (some e) before now id rows h = refl
delete_expired-find none none before now id rows h = rw (select-keep before now id rows h)

-- The table has a row of the carrier under the id.
abbrev pub HasRow : Text → Text → List Row → Type 0
HasRow id k [] = ⊥
HasRow id k (r ∷ rows) = ((r.request_id ≡ id) × (r.carrier_id ≡ k)) ⊎ HasRow id k rows

-- The rows under the id have expired.
abbrev pub AllExpired : ℤ → Text → List Row → Type 0
AllExpired now id = All (λ r. r.request_id ≡ id → r.expires_at ≤ℤ now)

HasRow-has_key :
    (id : Text) (q : QuoteResult) (rows : List Row)
    → HasRow id q.carrier_id rows
    → has_key (row_of id q) rows ≡ true
unfolding has_key same_key row_of
HasRow-has_key id q [] h = absurd h
HasRow-has_key id q (r ∷ rows) (inl h) =
    ground (arith, text_eq_iff id r.request_id, text_eq_iff q.carrier_id r.carrier_id)
HasRow-has_key id q (r ∷ rows) (inr h) = ground (arith, HasRow-has_key id q rows h)

HasRow-AllKnown :
    (id : Text) (results : List QuoteResult) (rows : List Row)
    → All (λ q. HasRow id q.carrier_id rows) results
    → AllKnown id rows results
HasRow-AllKnown id [] rows h = tt
HasRow-AllKnown id (q ∷ results) rows h =
    (HasRow-has_key id q rows h.0, HasRow-AllKnown id results rows h.1)

select_rows-expired :
    (now : ℤ) (id : Text) (rows : List Row) → AllExpired now id rows → select_rows now id rows ≡ []
unfolding select_rows is_live
select_rows-expired now id [] h = refl
select_rows-expired now id (r ∷ rows) h =
    ground (arith, text_eq_iff r.request_id id, h.0, select_rows-expired now id rows h.1)

-- When the rows under an id have expired but are not deleted, new results of their carriers are not
-- stored: the table stays as it is, and a look-up under the id still finds nothing.
pub expired_rows_block :
    (now : ℤ) (id : Text) (results : List QuoteResult) (rows : List Row)
    → All (λ q. HasRow id q.carrier_id rows) results
    → AllExpired now id rows
    → let after = (save none id results rows).0 in
      (after ≡ rows) × (find_by_request_id none now id after ≡ ok none)
unfolding save find_by_request_id results_of
expired_rows_block now id results rows known expired =
    let same = insert_all-known id results rows (HasRow-AllKnown id results rows known) in
    (
      same,
      ap (λ rs. ok (found (results_of id (select_rows now id rs)))) same
          ∙ ap (λ rs. ok (found (results_of id rs))) (select_rows-expired now id rows expired),
    )
