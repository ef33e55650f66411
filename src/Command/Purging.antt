-- ===== src/Command/Purging.antt =====
-- main.go: the cleanup ticker on the repository. The n-th sweep finds the time `now n` and, if the
-- driver fails, the error `failure n`; what the fan-outs store meanwhile is left out.
use carrier_gateway.Prelude.{
  ℕ, suc, ◌+◌, ◌-◌, ◌≤◌, ◌≡◌, ◌∙◌, refl, ap, ℤ, ◌≤ℤ◌, Text, pos, pos_part, Option, none, some, List,
  [], ◌∷◌, length, total, arith,
}
use carrier_gateway.Domain.{Error, Result, ok}
use carrier_gateway.Cleanup.{
  Event, tick, stop, context_done, Report, failed, purged, nothing, report_of, Ticker, sweep, start,
}
use carrier_gateway.Repository.{Row, keep_live, delete_expired, find_by_request_id}
use carrier_gateway.Repository.Table.{delete_expired-find}
use carrier_gateway.Repository.Transaction.{delete_and_count}

-- The table, and the number of sweeps so far.
pub record Store : Type 0 where
  pub swept : ℕ
  pub rows : List Row

-- The rows that a report of the ticker says are gone.
abbrev pub reported : Report → ℕ
reported (purged n) = pos_part n
reported (failed e) = 0
reported nothing = 0

length-keep_live : (now : ℤ) (rows : List Row) → length (keep_live now rows) ≤ length rows
unfolding keep_live
length-keep_live now [] = omega arith
length-keep_live now (r ∷ rows) = ground (arith, length-keep_live now rows)

reported-report_of : (n : ℕ) → reported (report_of (ok (pos n))) ≡ n
reported-report_of n = ground arith

-- What is counted and what is left is all that there was.
delete_and_count-all :
    (failure : Option Error) (now : ℤ) (rows : List Row)
    → let after = delete_and_count failure now rows in
      reported (report_of after.1) + length after.0 ≡ length rows
unfolding delete_and_count
delete_and_count-all (some e) now rows = omega arith
delete_and_count-all none now rows = omega (
  arith,
  length-keep_live now rows,
  reported-report_of (length rows - length (keep_live now rows)),
)

-- The rows that it leaves are those of the statement.
delete_and_count-rows :
    (failure : Option Error) (now : ℤ) (rows : List Row)
    → (delete_and_count failure now rows).0 ≡ (delete_expired failure now rows).0
unfolding delete_and_count delete_expired
delete_and_count-rows (some e) now rows = refl
delete_and_count-rows none now rows = refl

-- What the reports of the ticker say and what is left in the table.
abbrev pub accounted : Ticker Store → ℕ
accounted t = total reported t.reports + length t.world.rows

module _ (now : ℕ → ℤ) (failure : ℕ → Option Error) where
  -- `DeleteExpired`, as the ticker calls it.
  abbrev pub purge : Store → Store × Result ℤ
  purge s =
      let (rows, r) = delete_and_count (failure s.swept) (now s.swept) s.rows in
      (record { swept = suc s.swept; rows = rows }, r)

  start-accounts :
      (events : List Event) (t : Ticker Store) → accounted (start purge events t) ≡ accounted t
  unfolding start sweep
  start-accounts [] t = refl
  start-accounts (stop ∷ events) t = refl
  start-accounts (context_done ∷ events) t = refl
  start-accounts (tick ∷ events) t =
      let (w, r) = sweep purge t.world in
      start-accounts events (record t { world = w; reports = r ∷ t.reports })
      ∙ omega (arith, delete_and_count-all (failure t.world.swept) (now t.world.swept) t.world.rows)

  purge-find :
      (at : ℤ) (looked : Option Error) (id : Text) (s : Store)
      → ((n : ℕ) → now n ≤ℤ at)
      → find_by_request_id looked at id (purge s).0.rows ≡ find_by_request_id looked at id s.rows
  purge-find at looked id s past =
      ap (find_by_request_id looked at id)
        (delete_and_count-rows (failure s.swept) (now s.swept) s.rows)
      ∙ delete_expired-find (failure s.swept) looked (now s.swept) at id s.rows (past s.swept)

  start-find_rows :
      (at : ℤ) (looked : Option Error) (id : Text) (events : List Event) (t : Ticker Store)
      → ((n : ℕ) → now n ≤ℤ at)
      → find_by_request_id looked at id (start purge events t).world.rows
        ≡ find_by_request_id looked at id t.world.rows
  unfolding start sweep
  start-find_rows at looked id [] t past = refl
  start-find_rows at looked id (stop ∷ events) t past = refl
  start-find_rows at looked id (context_done ∷ events) t past = refl
  start-find_rows at looked id (tick ∷ events) t past =
      let (w, r) = sweep purge t.world in
      start-find_rows at looked id events (record t { world = w; reports = r ∷ t.reports }) past
      ∙ purge-find at looked id t.world past

  -- However often the ticker sweeps, and whichever of the sweeps fail, a look-up at a time that no
  -- sweep is later than finds what it would have found without the ticker; and the numbers of rows
  -- that the ticker has reported and of those that are left add up to what they were.
  pub start-find :
      (at : ℤ) (looked : Option Error) (id : Text) (events : List Event) (t : Ticker Store)
      → ((n : ℕ) → now n ≤ℤ at)
      → let after = start purge events t in
        (find_by_request_id looked at id after.world.rows
          ≡ find_by_request_id looked at id t.world.rows)
        × (accounted after ≡ accounted t)
  start-find at looked id events t past =
      (start-find_rows at looked id events t past, start-accounts events t)
