-- ===== src/Repository/Transaction.antt =====
-- internal/repository/postgres.go, call by call: the transaction of Save, the rows that
-- FindByRequestID scans, and the count of DeleteExpired. What database/sql answers to each call is
-- given; nobody else writes to the table meanwhile.
use carrier_gateway.Prelude.{
  ℕ, suc, ◌-◌, ℤ, pos, Text, bytes, Option, none, some, List, [], ◌∷◌, ◌++◌, length, take,
}
use carrier_gateway.Domain.{QuoteResult, Error, wrap, Result, ok, err}
use carrier_gateway.Repository.{Row, insert_row, row_of, result_of, select_rows, found, keep_live}

-- The answers to BeginTx, to the n-th ExecContext, and to Commit.
pub record SaveCalls : Type 0 where
  pub begin_tx : Option Error
  pub exec : ℕ → Option Error
  pub commit : Option Error

-- The end of the transaction: an error before Commit leads to the deferred Rollback, after which the
-- table is what it was.
abbrev pub end_tx : Option Error → List Row → List Row × Option Error → List Row × Option Error
end_tx commit rows (pending, some e) = (rows, some e)
end_tx (some e) rows (pending, none) = (rows, some (wrap (bytes "repository: commit") e))
end_tx none rows (pending, none) = (pending, none)

-- The answers to QueryContext and to the n-th Scan, and the number of rows after which Next returns
-- false too early, with what Err then says.
pub record FindCalls : Type 0 where
  pub query : Option Error
  pub scan : ℕ → Option Error
  pub broken : Option (ℕ × Error)

abbrev pub delivered : Option (ℕ × Error) → List Row → List Row
delivered none rows = rows
delivered (some (n, e)) rows = take n rows

-- The loop over the rows, with the results so far.
unfoldable pub scan_each :
    (ℕ → Option Error) → Text → List Row → ℕ → List QuoteResult → Result (List QuoteResult)
scan_each scan id [] i results = ok results
scan_each scan id (r ∷ rows) i results = elim (scan i) [
  | some e ↦ err (wrap (bytes "repository: scan quote row") e)
  | none ↦ scan_each scan id rows (suc i) (results ++ result_of id r ∷ [])
]

abbrev pub after_rows :
    Option (ℕ × Error) → Result (List QuoteResult) → Result (Option (List QuoteResult))
after_rows broken (err e) = err e
after_rows (some (n, e)) (ok results) = err (wrap (bytes "repository: rows iteration") e)
after_rows none (ok results) = ok (found results)

-- `FindByRequestID`
unfoldable pub find_in_rows : FindCalls → ℤ → Text → List Row → Result (Option (List QuoteResult))
unfolding scan_each
find_in_rows calls now id rows = elim calls.query [
  | some e ↦ err (wrap (bytes "repository: query quotes") e)
  | none ↦
      after_rows calls.broken
        (scan_each calls.scan id (delivered calls.broken (select_rows now id rows)) 0 [])
]

-- `DeleteExpired`, with the number of rows.
unfoldable pub delete_and_count : Option Error → ℤ → List Row → List Row × Result ℤ
delete_and_count (some e) now rows = (rows, err (wrap (bytes "repository: delete expired") e))
delete_and_count none now rows =
    let kept = keep_live now rows in (kept, ok (pos (length rows - length kept)))

abbrev pub error_of : {A : Type 0} → Result A → Option Error
error_of (ok a) = none
error_of (err e) = some e

-- `quoted` is the verb %q of fmt.
module _ (quoted : Text → Text) where
  -- The loop of Save, in the transaction.
  unfoldable pub insert_each :
      (ℕ → Option Error) → Text → List QuoteResult → ℕ → List Row → List Row × Option Error
  insert_each exec id [] i rows = (rows, none)
  insert_each exec id (res ∷ results) i rows = elim (exec i) [
    | some e ↦ (
      rows,
      some (wrap (bytes "repository: insert quote for carrier " ++ quoted res.carrier_id) e),
    )
    | none ↦ insert_each exec id results (suc i) (insert_row (row_of id res) rows)
  ]

  -- `Save`
  unfoldable pub save_in_tx :
      SaveCalls → Text → List QuoteResult → List Row → List Row × Option Error
  unfolding insert_each
  save_in_tx calls id results rows = elim calls.begin_tx [
    | some e ↦ (rows, some (wrap (bytes "repository: begin tx") e))
    | none ↦ end_tx calls.commit rows (insert_each calls.exec id results 0 rows)
  ]
