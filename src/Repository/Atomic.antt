-- ===== src/Repository/Atomic.antt =====
-- Save and FindByRequestID, call by call, do what the single statements of their parent do: all of it
-- or, with an error, nothing.
use carrier_gateway.Prelude.{
  ℕ, suc, ◌+◌, ◌≤◌, ◌<◌, ◌≡◌, ◌↔◌, ◌∙◌, refl, ap, ℤ, Text, Option, none, some, List, [], ◌∷◌, ◌++◌,
  length, arith, Option-cases, inl, inr,
}
use mathlib.Core.List.{append_assoc, append-nil}
use carrier_gateway.Domain.{QuoteResult, Error, Result, ok, err}
use carrier_gateway.Repository.{
  Row, insert_row, row_of, insert_all, save, result_of, select_rows, results_of, found,
  find_by_request_id,
}
use carrier_gateway.Repository.Transaction.{
  SaveCalls, FindCalls, insert_each, save_in_tx, end_tx, delivered, scan_each, after_rows,
  find_in_rows, error_of,
}

module _ (quoted : Text → Text) where
  -- Without an error the loop has inserted all, and no call has failed.
  insert_each-all :
      (exec : ℕ → Option Error) (id : Text) (results : List QuoteResult) (i : ℕ) (rows : List Row)
      → (insert_each quoted exec id results i rows).1 ≡ none
      → ((insert_each quoted exec id results i rows).0 ≡ insert_all id results rows)
        × ((n : ℕ) → i ≤ n → n < i + length results → exec n ≡ none)
  unfolding insert_each insert_all
  insert_each-all exec id [] i rows h = (refl, (λ n l m. absurd (omega arith)))
  insert_each-all exec id (res ∷ results) i rows h = elim (Option-cases (exec i)) [
    | inr (e, x) ↦ absurd (ground (arith, x))
    | inl x ↦
        let rest =
          insert_each-all exec id results (suc i) (insert_row (row_of id res) rows)
            (ground (arith, x)) in
        (ground (arith, x, rest.0), (λ n l m. ground (arith, x, rest.1 n)))
  ]

  insert_each-succeeds :
      (exec : ℕ → Option Error) (id : Text) (results : List QuoteResult) (i : ℕ) (rows : List Row)
      → ((n : ℕ) → i ≤ n → n < i + length results → exec n ≡ none)
      → (insert_each quoted exec id results i rows).1 ≡ none
  unfolding insert_each
  insert_each-succeeds exec id [] i rows h = refl
  insert_each-succeeds exec id (res ∷ results) i rows h =
      rw (h i (omega arith) (omega arith), insert_each)
        (insert_each-succeeds exec id results (suc i) (insert_row (row_of id res) rows)
          (λ n l m. h n (omega arith) (omega arith)))

  end_tx-save :
      (commit : Option Error) (id : Text) (results : List QuoteResult) (rows : List Row)
      (done : List Row × Option Error)
      → (done.1 ≡ none → done.0 ≡ insert_all id results rows)
      → end_tx commit rows done ≡ save (end_tx commit rows done).1 id results rows
  unfolding save
  end_tx-save commit id results rows (pending, some e) h = refl
  end_tx-save (some c) id results rows (pending, none) h = refl
  end_tx-save none id results rows (pending, none) h = ap (λ t. (t, none)) (h refl)

  end_tx-none :
      (commit : Option Error) (rows : List Row) (done : List Row × Option Error)
      → ((end_tx commit rows done).1 ≡ none) ↔ (done.1 ≡ none) × (commit ≡ none)
  end_tx-none commit rows (pending, some e) = ((λ h. ground arith), (λ h. ground arith))
  end_tx-none (some c) rows (pending, none) = ((λ h. ground arith), (λ h. ground arith))
  end_tx-none none rows (pending, none) = ((λ h. ground arith), (λ h. ground arith))

  -- Save, call by call, leaves what `save` leaves with the error that it returns: all the results are
  -- inserted, or, with an error, the table is what it was; and it returns no error exactly if the
  -- transaction has begun, no insert has failed, and the transaction was committed.
  pub save_in_tx-save :
      (calls : SaveCalls) (id : Text) (results : List QuoteResult) (rows : List Row)
      → let after = save_in_tx quoted calls id results rows in
        (after ≡ save after.1 id results rows)
        × ((after.1 ≡ none)
            ↔ (calls.begin_tx ≡ none)
              × (((n : ℕ) → n < length results → calls.exec n ≡ none) × (calls.commit ≡ none)))
  unfolding save_in_tx save
  save_in_tx-save calls id results rows = elim (Option-cases calls.begin_tx) [
    | inr (e, x) ↦ rw (x, save_in_tx) (refl, ((λ h. ground arith), (λ h. ground (arith, x))))
    | inl x ↦
        let done = insert_each quoted calls.exec id results 0 rows in
        let all = insert_each-all calls.exec id results 0 rows in
        let ends = end_tx-none calls.commit rows done in
        rw (x, save_in_tx)
          (
            end_tx-save calls.commit id results rows done (λ h. (all h).0),
            (
              (λ h. (
                refl,
                ((λ n l. (all (ends.0 h).0).1 n (omega arith) (omega arith)), (ends.0 h).1),
              )),
              (λ h. ends.1 (
                insert_each-succeeds calls.exec id results 0 rows (λ n l m. h.1.0 n (omega arith)),
                h.1.1,
              )),
            ),
          )
  ]

scan_each-all :
    (scan : ℕ → Option Error) (id : Text) (rows : List Row) (i : ℕ) (seen qs : List QuoteResult)
    → scan_each scan id rows i seen ≡ ok qs
    → (qs ≡ seen ++ results_of id rows) × ((n : ℕ) → i ≤ n → n < i + length rows → scan n ≡ none)
unfolding scan_each results_of
scan_each-all scan id [] i seen qs h =
    (ground (arith, append-nil seen), (λ n l m. absurd (omega arith)))
scan_each-all scan id (r ∷ rows) i seen qs h = elim (Option-cases (scan i)) [
  | inr (e, x) ↦ absurd (ground (arith, x))
  | inl x ↦
      let rest =
        scan_each-all scan id rows (suc i) (seen ++ result_of id r ∷ []) qs (ground (arith, x)) in
      (
        rest.0 ∙ append_assoc seen (result_of id r ∷ []) (results_of id rows),
        (λ n l m. ground (arith, x, rest.1 n)),
      )
]

scan_each-succeeds :
    (scan : ℕ → Option Error) (id : Text) (rows : List Row) (i : ℕ) (seen : List QuoteResult)
    → ((n : ℕ) → i ≤ n → n < i + length rows → scan n ≡ none)
    → error_of (scan_each scan id rows i seen) ≡ none
unfolding scan_each
scan_each-succeeds scan id [] i seen h = refl
scan_each-succeeds scan id (r ∷ rows) i seen h =
    rw (h i (omega arith) (omega arith), scan_each)
      (scan_each-succeeds scan id rows (suc i) (seen ++ result_of id r ∷ [])
        (λ n l m. h n (omega arith) (omega arith)))

-- When the rows do not end too early.
scan_delivered-all :
    (broken : Option (ℕ × Error)) (scan : ℕ → Option Error) (id : Text) (rows : List Row)
    (qs : List QuoteResult)
    → broken ≡ none
    → scan_each scan id (delivered broken rows) 0 [] ≡ ok qs
    → (qs ≡ results_of id rows) × ((n : ℕ) → n < length rows → scan n ≡ none)
scan_delivered-all (some b) scan id rows qs none_broken h = absurd (ground arith)
scan_delivered-all none scan id rows qs none_broken h =
    let all = scan_each-all scan id rows 0 [] qs h in
    (all.0, (λ n l. all.1 n (omega arith) (omega arith)))

scan_delivered-succeeds :
    (broken : Option (ℕ × Error)) (scan : ℕ → Option Error) (id : Text) (rows : List Row)
    → broken ≡ none
    → ((n : ℕ) → n < length rows → scan n ≡ none)
    → error_of (scan_each scan id (delivered broken rows) 0 []) ≡ none
scan_delivered-succeeds (some b) scan id rows none_broken h = absurd (ground arith)
scan_delivered-succeeds none scan id rows none_broken h =
    scan_each-succeeds scan id rows 0 [] (λ n l m. h n (omega arith))

after_rows-found :
    (broken : Option (ℕ × Error)) (now : ℤ) (id : Text) (rows : List Row)
    (scanned : Result (List QuoteResult))
    → (broken ≡ none
        → (qs : List QuoteResult) → scanned ≡ ok qs
        → qs ≡ results_of id (select_rows now id rows))
    → after_rows broken scanned
      ≡ find_by_request_id (error_of (after_rows broken scanned)) now id rows
unfolding find_by_request_id
after_rows-found broken now id rows (err e) h = refl
after_rows-found (some (n, e)) now id rows (ok qs) h = refl
after_rows-found none now id rows (ok qs) h = ap (λ x. ok (found x)) (h refl qs refl)

after_rows-none :
    (broken : Option (ℕ × Error)) (scanned : Result (List QuoteResult))
    → (error_of (after_rows broken scanned) ≡ none) ↔ (error_of scanned ≡ none) × (broken ≡ none)
after_rows-none broken (err e) = ((λ h. ground arith), (λ h. ground arith))
after_rows-none (some (n, e)) (ok qs) = ((λ h. ground arith), (λ h. ground arith))
after_rows-none none (ok qs) = ((λ h. (refl, refl)), (λ h. refl))

error_of-none : {A : Type 0} (r : Result A) → error_of r ≡ none → (a : A) × (r ≡ ok a)
error_of-none (ok a) h = (a, refl)
error_of-none (err e) h = absurd (ground arith)

-- FindByRequestID returns all the results that it is meant to find, in the order of the
-- statement, or an error, never a part of them; and it returns no error exactly if the query
-- has succeeded, each row was scanned, and the rows did not end too early.
pub find_in_rows-find :
    (calls : FindCalls) (now : ℤ) (id : Text) (rows : List Row)
    → let answer = find_in_rows calls now id rows in
      (answer ≡ find_by_request_id (error_of answer) now id rows)
      × ((error_of answer ≡ none)
          ↔ (calls.query ≡ none)
            × (((n : ℕ) → n < length (select_rows now id rows) → calls.scan n ≡ none)
                × (calls.broken ≡ none)))
unfolding find_in_rows find_by_request_id
find_in_rows-find calls now id rows = elim (Option-cases calls.query) [
  | inr (e, x) ↦ rw (x, find_in_rows) (refl, ((λ h. ground arith), (λ h. ground (arith, x))))
  | inl x ↦
      let chosen = select_rows now id rows in
      let scanned = scan_each calls.scan id (delivered calls.broken chosen) 0 [] in
      let ends = after_rows-none calls.broken scanned in
      rw (x, find_in_rows)
        (
          after_rows-found calls.broken now id rows scanned
              (λ b qs h. (scan_delivered-all calls.broken calls.scan id chosen qs b h).0),
          (
            (λ h. (
              refl,
              (
                (let (qs, e) = error_of-none scanned (ends.0 h).0 in
                    (scan_delivered-all calls.broken calls.scan id chosen qs (ends.0 h).1 e).1),
                (ends.0 h).1,
              ),
            )),
            (λ h.
                ends.1
                  (scan_delivered-succeeds calls.broken calls.scan id chosen h.1.1 h.1.0, h.1.1)),
          ),
        )
]
