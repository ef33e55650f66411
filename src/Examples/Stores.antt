-- ===== src/Examples/Stores.antt =====
-- The database of the program, call by call, at concrete inputs: the world is the number of pools
-- that are open.
use carrier_gateway.Prelude.{
  ℕ, suc, ◌-◌, ◌<◌, ◌≡◌, ◌==◌, ◌↔◌, refl, ℤ, pos, Text, bytes, false, none, some, Option, List, [],
  ◌∷◌, length, arith, if◌then◌else◌,
}
use carrier_gateway.Domain.{QuoteResult, Error, opaque, ok}
use carrier_gateway.Cleanup.{tick, stop, Ticker, start}
use carrier_gateway.Repository.{Row, save, find_by_request_id, select_rows}
use carrier_gateway.Repository.Transaction.{
  SaveCalls, FindCalls, save_in_tx, find_in_rows, error_of,
}
use carrier_gateway.Repository.Atomic.{save_in_tx-save, find_in_rows-find}
use carrier_gateway.Repository.Connection.{Driver, CountsPools}
use carrier_gateway.Command.Exit.{ending_of, exit_main, exit_code_success, exit_code_drain_timeout}
use carrier_gateway.Command.Database.{connect, closing_of, main-pools, held, Backed}
use carrier_gateway.Command.Purging.{Store, purge, accounted, start-find}

abbrev quote : Text → QuoteResult
quote carrier_id = record {
  request_id = bytes "r-1";
  carrier_id = carrier_id;
  premium = record { amount = pos 120000; currency = [] };
  expires_at = pos 900;
  carrier_ref = bytes "ref";
  latency = pos 1500000;
  is_hedged = false;
}

abbrev quotes : List QuoteResult
quotes = quote (bytes "alpha") ∷ quote (bytes "beta") ∷ []

abbrev row : ℤ → Row
row expires_at = record {
  request_id = bytes "r-1";
  carrier_id = bytes "gamma";
  premium_cents = pos 110000;
  currency = bytes "USD";
  expires_at = expires_at;
  is_hedged = false;
  latency_ms = pos 1;
}

-- The second insert fails.
abbrev save_calls : SaveCalls
save_calls = record {
  begin_tx = none;
  exec = λ n. if n == 1 then some (opaque (bytes "deadlock detected")) else none;
  commit = none;
}

save_in_tx-save_example :
    let after = save_in_tx (λ t. t) save_calls (bytes "r-1") quotes (row (pos 100) ∷ []) in
    (after ≡ save after.1 (bytes "r-1") quotes (row (pos 100) ∷ []))
    × ((after.1 ≡ none)
        ↔ (save_calls.begin_tx ≡ none)
          × (((n : ℕ) → n < length quotes → save_calls.exec n ≡ none) × (save_calls.commit ≡ none)))
save_in_tx-save_example =
    save_in_tx-save (λ t. t) save_calls (bytes "r-1") quotes (row (pos 100) ∷ [])

-- The connection breaks after the first row.
abbrev find_calls : FindCalls
find_calls = record {
  query = none;
  scan = λ n. none;
  broken = some (1, opaque (bytes "connection reset"));
}

abbrev rows : List Row
rows = row (pos 100) ∷ record (row (pos 100)) { carrier_id = bytes "alpha" } ∷ []

find_in_rows-find_example :
    let answer = find_in_rows find_calls (pos 50) (bytes "r-1") rows in
    (answer ≡ find_by_request_id (error_of answer) (pos 50) (bytes "r-1") rows)
    × ((error_of answer ≡ none)
        ↔ (find_calls.query ≡ none)
          × (((n : ℕ)
                → n < length (select_rows (pos 50) (bytes "r-1") rows)
                → find_calls.scan n ≡ none)
              × (find_calls.broken ≡ none)))
find_in_rows-find_example = find_in_rows-find find_calls (pos 50) (bytes "r-1") rows

-- A server that answers, but does not let the tables be made.
abbrev driver : Driver Text ℕ
driver = record {
  sql_open = λ dsn w. (suc w, ok dsn);
  set_max_open_conns = λ n db w. w;
  set_max_idle_conns = λ n db w. w;
  set_conn_max_lifetime = λ n db w. w;
  ping = λ db w. (w, none);
  close = λ db w. (w - 1, none);
  exec_migrate_sql = λ db w. (w, some (opaque (bytes "permission denied")));
}

abbrev driver_counts : CountsPools driver (λ w. w)
driver_counts = record {
  makes = λ dsn w. refl;
  closes = λ db w. refl;
  sets_open = λ n db w. refl;
  sets_idle = λ n db w. refl;
  sets_lifetime = λ n db w. refl;
  pings = λ db w. refl;
  migrates = λ db w. refl;
}

main-pools_example :
    let (w', database) = connect driver (bytes "postgres://db/quotes") 0 in
    let end =
      exit_main
        (closing_of driver (λ w. w) (λ w. (w, none)) database)
        (ending_of (λ e. false) none)
        w' in
    Backed database
    × ((end.1 ≡ exit_code_success → end.0 ≡ 0)
        × (end.1 ≡ exit_code_drain_timeout → end.0 ≡ held database.pool 0))
main-pools_example =
    main-pools driver (λ w. w) driver_counts (λ w. w) (λ w. w) (λ w. (w, none)) (λ w. refl)
      (λ w. refl) (λ w. refl) (bytes "postgres://db/quotes") (λ e. false) none 0

-- The first sweep fails, the second deletes one of two rows.
abbrev now : ℕ → ℤ
now n = pos 200

abbrev failure : ℕ → Option Error
failure n = if n == 0 then some (opaque (bytes "connection refused")) else none

abbrev ticker : Ticker Store
ticker = record {
  world = record { swept = 0; rows = row (pos 100) ∷ row (pos 900) ∷ [] };
  reports = [];
  done = false;
}

start-find_example :
    let after = start (purge now failure) (tick ∷ tick ∷ stop ∷ []) ticker in
    (find_by_request_id none (pos 300) (bytes "r-1") after.world.rows
      ≡ find_by_request_id none (pos 300) (bytes "r-1") ticker.world.rows)
    × (accounted after ≡ accounted ticker)
start-find_example =
    start-find now failure (pos 300) none (bytes "r-1") (tick ∷ tick ∷ stop ∷ []) ticker
      (λ n. omega arith)
