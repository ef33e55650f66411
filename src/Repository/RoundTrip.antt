-- ===== src/Repository/RoundTrip.antt =====
-- postgres.go: what FindByRequestID makes of the quotes that Save has stored.
use carrier_gateway.Prelude.{
  ℕ, ◌*◌, ◌/◌, ◌<◌, ℤ, pos, pos_part, quot, ◌<ℤ◌, to_int64, ◌*ℤ◌, to_int64-pos, half64, Text, bytes,
  is_empty, text_eq_iff, text_eq_refl, true, false, none, some, List, [], ◌∷◌, ◌++◌, arith, ◌≡◌,
  ◌≢◌, refl, sym, ap, ◌∙◌, map, All, if◌then◌else◌,
}
use mathlib.Core.Path.{subst, ap₂}
use mathlib.Core.List.{append_assoc, append-nil}
use carrier_gateway.Domain.{QuoteResult, ok}
use carrier_gateway.Repository.{
  Row, same_key, has_key, insert_row, row_of, insert_all, save, is_live, insert_by_premium,
  timestamptz, select_rows, result_of, results_of, found, find_by_request_id,
}

-- A quote as the table gives it back: under the id it was saved with, without the reference of the
-- carrier, in US dollars if it had no currency, with the time of expiry to the microsecond, and with
-- whole milliseconds of latency.
abbrev pub stored : Text → QuoteResult → QuoteResult
stored id q = record {
  request_id = id;
  carrier_id = q.carrier_id;
  premium = record {
    amount = q.premium.amount;
    currency = if is_empty q.premium.currency then bytes "USD" else q.premium.currency;
  };
  expires_at = timestamptz q.expires_at;
  carrier_ref = [];
  latency = pos (pos_part q.latency / 1000000 * 1000000);
  is_hedged = q.is_hedged;
}

-- A quote that has not expired, to the microsecond, with a latency of int64.
abbrev pub IsFresh : ℤ → QuoteResult → Type 0
IsFresh now q = (now <ℤ timestamptz q.expires_at) × ((n : ℕ) × ((q.latency ≡ pos n) × n < half64))

-- The premiums increase, and no carrier occurs twice.
abbrev pub IsAnswer : List QuoteResult → Type 0
IsAnswer [] = Unit
IsAnswer (q ∷ qs) =
    All (λ p. (q.premium.amount <ℤ p.premium.amount) × (q.carrier_id ≢ p.carrier_id)) qs
    × IsAnswer qs

-- No row has the id.
abbrev pub AllOther : Text → List Row → Type 0
AllOther id = All (λ r. r.request_id ≢ id)

-- No row has the key of one of the results.
AllNew : Text → List QuoteResult → List Row → Type 0
AllNew id qs rows = All (λ q. has_key (row_of id q) rows ≡ false) qs

other-has_key :
    (id : Text) (q : QuoteResult) (rows : List Row)
    → AllOther id rows
    → has_key (row_of id q) rows ≡ false
unfolding has_key same_key row_of
other-has_key id q [] h = refl
other-has_key id q (r ∷ rows) h =
    ground (arith, text_eq_iff r.request_id id, other-has_key id q rows h.1)

other-AllNew :
    (id : Text) (qs : List QuoteResult) (rows : List Row) → AllOther id rows → AllNew id qs rows
unfolding AllNew
other-AllNew id [] rows h = tt
other-AllNew id (q ∷ qs) rows h = (other-has_key id q rows h, other-AllNew id qs rows h)

has_key-snoc :
    (id : Text) (p q : QuoteResult) (rows : List Row)
    → q.carrier_id ≢ p.carrier_id
    → has_key (row_of id p) rows ≡ false
    → has_key (row_of id p) (rows ++ row_of id q ∷ []) ≡ false
unfolding has_key same_key row_of
has_key-snoc id p q [] d h = ground (arith, text_eq_iff q.carrier_id p.carrier_id)
has_key-snoc id p q (r ∷ rows) d h = ground (arith, has_key-snoc id p q rows d)

snoc-AllNew :
    (id : Text) (q : QuoteResult) (qs : List QuoteResult) (rows : List Row)
    → All (λ p. (q.premium.amount <ℤ p.premium.amount) × (q.carrier_id ≢ p.carrier_id)) qs
    → AllNew id qs rows
    → AllNew id qs (rows ++ row_of id q ∷ [])
unfolding AllNew
snoc-AllNew id q [] rows d h = tt
snoc-AllNew id q (p ∷ qs) rows d h =
    (has_key-snoc id p q rows d.0.1 h.0, snoc-AllNew id q qs rows d.1 h.1)

insert_row-new :
    (r : Row) (rows : List Row) → has_key r rows ≡ false → insert_row r rows ≡ rows ++ r ∷ []
unfolding insert_row
insert_row-new r rows h = rw (h, insert_row) refl

insert_all-append :
    (id : Text) (qs : List QuoteResult) (rows : List Row)
    → IsAnswer qs
    → AllNew id qs rows
    → insert_all id qs rows ≡ rows ++ map (row_of id) qs
unfolding insert_all AllNew
insert_all-append id [] rows a h = sym (append-nil rows)
insert_all-append id (q ∷ qs) rows a h =
    ap (insert_all id qs) (insert_row-new (row_of id q) rows h.0)
    ∙ insert_all-append id qs (rows ++ row_of id q ∷ []) a.1 (snoc-AllNew id q qs rows a.0 h.1)
    ∙ append_assoc rows (row_of id q ∷ []) (map (row_of id) qs)

select_rows-other :
    (now : ℤ) (id : Text) (rows s : List Row)
    → AllOther id rows
    → select_rows now id (rows ++ s) ≡ select_rows now id s
unfolding select_rows is_live
select_rows-other now id [] s h = refl
select_rows-other now id (r ∷ rows) s h =
    ground (arith, text_eq_iff r.request_id id, select_rows-other now id rows s h.1)

insert_by_premium-first :
    (id : Text) (q : QuoteResult) (qs : List QuoteResult)
    → All (λ p. (q.premium.amount <ℤ p.premium.amount) × (q.carrier_id ≢ p.carrier_id)) qs
    → insert_by_premium (row_of id q) (map (row_of id) qs) ≡ row_of id q ∷ map (row_of id) qs
unfolding insert_by_premium row_of
insert_by_premium-first id q [] h = refl
insert_by_premium-first id q (p ∷ qs) h = ground arith

live_row :
    (now : ℤ) (id : Text) (q : QuoteResult) → IsFresh now q → is_live now id (row_of id q) ≡ true
unfolding is_live row_of
live_row now id q f = ground (arith, text_eq_refl id, f.0)

select_rows-stored :
    (now : ℤ) (id : Text) (qs : List QuoteResult)
    → IsAnswer qs
    → All (IsFresh now) qs
    → select_rows now id (map (row_of id) qs) ≡ map (row_of id) qs
unfolding select_rows
select_rows-stored now id [] a f = refl
select_rows-stored now id (q ∷ qs) a f =
    rw (live_row now id q f.0, select_rows-stored now id qs a.1 f.1)
      (insert_by_premium-first id q qs a.0)

whole_ms :
    (n : ℕ)
    → n < half64
    → to_int64 (quot (pos n) 1000000 *ℤ pos 1000000) ≡ pos (n / 1000000 * 1000000)
whole_ms n h = ground (arith, to_int64-pos (n / 1000000 * 1000000) (omega arith))

result_of-stored :
    (now : ℤ) (id : Text) (q : QuoteResult)
    → IsFresh now q
    → result_of id (row_of id q) ≡ stored id q
unfolding result_of row_of
result_of-stored now id q (l, (n, (e, b))) =
    let whole =
      subst (λ x. to_int64 (quot x 1000000 *ℤ pos 1000000) ≡ pos (pos_part x / 1000000 * 1000000))
        (sym e) (whole_ms n b) in
    ap (λ x. record (stored id q) { latency = x }) whole

results_of-stored :
    (now : ℤ) (id : Text) (qs : List QuoteResult)
    → All (IsFresh now) qs
    → results_of id (map (row_of id) qs) ≡ map (stored id) qs
unfolding results_of
results_of-stored now id [] f = refl
results_of-stored now id (q ∷ qs) f =
    ap₂ ◌∷◌ (result_of-stored now id q f.0) (results_of-stored now id qs f.1)

-- What Save stores under an id that has no rows, FindByRequestID returns in the same order as long as
-- nothing of it has expired, if the premiums increase, no carrier occurs twice and the latencies fit
-- an int64 and are not negative: the quotes with that id, US dollars where there was no currency,
-- whole milliseconds of latency, and no reference of the carrier.
pub save-find :
    (now : ℤ) (id : Text) (q : QuoteResult) (qs : List QuoteResult) (rows : List Row)
    → AllOther id rows
    → IsAnswer (q ∷ qs)
    → All (IsFresh now) (q ∷ qs)
    → find_by_request_id none now id (save none id (q ∷ qs) rows).0
      ≡ ok (some (map (stored id) (q ∷ qs)))
unfolding find_by_request_id save
save-find now id q qs rows o a f =
    let kept =
      ap (select_rows now id)
        (insert_all-append id (q ∷ qs) rows a (other-AllNew id (q ∷ qs) rows o))
      ∙ select_rows-other now id rows (map (row_of id) (q ∷ qs)) o
      ∙ select_rows-stored now id (q ∷ qs) a f in
    ap (λ rs. ok (found (results_of id rs))) kept
    ∙ ap (λ rs. ok (found rs)) (results_of-stored now id (q ∷ qs) f)
