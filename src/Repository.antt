-- ===== src/Repository.antt =====
-- internal/repository/postgres.go: the quotes table, as the list of its rows, and the statements that
-- Save, FindByRequestID and DeleteExpired execute. Each runs in one transaction; a failure of the
-- driver is an error and leaves the table as it was. Times are nanoseconds, in the table whole
-- microseconds.
pub mod Table
pub mod RoundTrip
pub mod Transaction
pub mod Connection
pub mod Atomic
pub mod Ordering
use carrier_gateway.Prelude.{
  ℕ, suc, ◌+◌, ◌*◌, ◌/◌, ◌%◌, ltb, ℤ, pos, negsuc, ◌-ℤ◌, quot, ltb_int, to_int64, ◌*ℤ◌, Text, bytes,
  text_eq, is_empty, Bool, true, false, ◌&&◌, not, Option, none, some, List, [], ◌∷◌, ◌++◌,
  if◌then◌else◌,
}
use carrier_gateway.Domain.{QuoteResult, Error, Result, ok, err}

pub record Row : Type 0 where
  pub request_id : Text
  pub carrier_id : Text
  pub premium_cents : ℤ
  pub currency : Text
  pub expires_at : ℤ
  pub is_hedged : Bool
  pub latency_ms : ℤ

-- The primary key.
unfoldable pub same_key : Row → Row → Bool
same_key r s = text_eq r.request_id s.request_id && text_eq r.carrier_id s.carrier_id

unfoldable pub has_key : Row → List Row → Bool
has_key r [] = false
has_key r (s ∷ rows) = if same_key s r then true else has_key r rows

-- `INSERT … ON CONFLICT (request_id, carrier_id) DO NOTHING`
unfoldable pub insert_row : Row → List Row → List Row
insert_row r rows = if has_key r rows then rows else rows ++ r ∷ []

-- What TIMESTAMPTZ keeps of a time: PostgreSQL rounds it to the nearest microsecond, and one that is
-- half-way to an even one.
unfoldable pub nearest_microsecond : ℕ → ℕ
nearest_microsecond n =
    let us = n / 1000 in
    let rest = n % 1000 in
    if ltb rest 500
    then us * 1000
    else if ltb 500 rest
    then (us + 1) * 1000
    else (us + us % 2) * 1000

unfoldable pub timestamptz : ℤ → ℤ
unfolding nearest_microsecond
timestamptz (pos n) = pos (nearest_microsecond n)
timestamptz (negsuc n) = pos 0 -ℤ pos (nearest_microsecond (suc n))

-- The values of the statement, for a result saved under `request_id`, as the columns keep them.
unfoldable pub row_of : Text → QuoteResult → Row
unfolding timestamptz
row_of request_id res = record {
  request_id = request_id;
  carrier_id = res.carrier_id;
  premium_cents = res.premium.amount;
  currency = if is_empty res.premium.currency then bytes "USD" else res.premium.currency;
  expires_at = timestamptz res.expires_at;
  is_hedged = res.is_hedged;
  latency_ms = quot res.latency 1000000;
}

unfoldable pub insert_all : Text → List QuoteResult → List Row → List Row
unfolding insert_row row_of
insert_all request_id [] rows = rows
insert_all request_id (res ∷ results) rows =
    insert_all request_id results (insert_row (row_of request_id res) rows)

-- `Save`; `failure` is the first error of the driver, if there is one.
unfoldable pub save : Option Error → Text → List QuoteResult → List Row → List Row × Option Error
unfolding insert_all
save (some e) request_id results rows = (rows, some e)
save none request_id results rows = (insert_all request_id results rows, none)

-- What FindByRequestID makes of a row.
unfoldable pub result_of : Text → Row → QuoteResult
result_of request_id r = record {
  request_id = request_id;
  carrier_id = r.carrier_id;
  premium = record { amount = r.premium_cents; currency = r.currency };
  expires_at = r.expires_at;
  carrier_ref = [];
  latency = to_int64 (r.latency_ms *ℤ pos 1000000);
  is_hedged = r.is_hedged;
}

-- `WHERE request_id = $1 AND expires_at > NOW()`
unfoldable pub is_live : ℤ → Text → Row → Bool
is_live now request_id r = text_eq r.request_id request_id && ltb_int now r.expires_at

-- `ORDER BY premium_cents ASC`: an insertion sort.
unfoldable pub insert_by_premium : Row → List Row → List Row
insert_by_premium r [] = r ∷ []
insert_by_premium r (s ∷ rows) =
    if ltb_int s.premium_cents r.premium_cents then s ∷ insert_by_premium r rows else r ∷ s ∷ rows

unfoldable pub select_rows : ℤ → Text → List Row → List Row
unfolding insert_by_premium is_live
select_rows now request_id [] = []
select_rows now request_id (r ∷ rows) =
    let rest = select_rows now request_id rows in
    if is_live now request_id r then insert_by_premium r rest else rest

unfoldable pub results_of : Text → List Row → List QuoteResult
unfolding result_of
results_of request_id [] = []
results_of request_id (r ∷ rows) = result_of request_id r ∷ results_of request_id rows

abbrev pub found : List QuoteResult → Option (List QuoteResult)
found [] = none
found (q ∷ qs) = some (q ∷ qs)

-- `FindByRequestID`; none of an ok result is `false`.
unfoldable pub find_by_request_id :
    Option Error → ℤ → Text → List Row → Result (Option (List QuoteResult))
unfolding select_rows results_of
find_by_request_id (some e) now request_id rows = err e
find_by_request_id none now request_id rows =
    ok (found (results_of request_id (select_rows now request_id rows)))

-- `DELETE FROM quotes WHERE expires_at <= NOW()`
unfoldable pub keep_live : ℤ → List Row → List Row
keep_live now [] = []
keep_live now (r ∷ rows) =
    let rest = keep_live now rows in if ltb_int now r.expires_at then r ∷ rest else rest

-- `DeleteExpired`, without the number of rows.
unfoldable pub delete_expired : Option Error → ℤ → List Row → List Row × Option Error
unfolding keep_live
delete_expired (some e) now rows = (rows, some e)
delete_expired none now rows = (keep_live now rows, none)
