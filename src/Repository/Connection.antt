-- ===== src/Repository/Connection.antt =====
-- internal/repository/postgres.go: Open, New and Migrate. What database/sql and the driver do is a
-- parameter; `P` stands for *sql.DB, a pool of connections.
use carrier_gateway.Prelude.{
  ℕ, suc, ◌-◌, ◌≡◌, ◌∙◌, ap, ℤ, pos, Text, bytes, Option, none, some, Option-cases, inl, inr, arith,
}
use carrier_gateway.Domain.{Error, wrap, Result, ok, err, Result-cases}

-- The calls: `sql.Open("postgres", dsn)`, the settings of the pool, `Ping`, `Close`, and ExecContext
-- of migrateSQL.
pub record Driver (P W : Type 0) : Type 0 where
  pub sql_open : Text → W → W × Result P
  pub set_max_open_conns : ℤ → P → W → W
  pub set_max_idle_conns : ℤ → P → W → W
  pub set_conn_max_lifetime : ℤ → P → W → W
  pub ping : P → W → W × Option Error
  pub close : P → W → W × Option Error
  pub exec_migrate_sql : P → W → W × Option Error

-- `PostgresRepo`
pub record PostgresRepo (P : Type 0) : Type 0 where
  pub db : P

abbrev pub new_repo : {P : Type 0} → P → PostgresRepo P
new_repo db = record { db = db }

module _ {P W : Type 0} (d : Driver P W) where
  abbrev pub set_limits : P → W → W
  set_limits db w =
      d.set_conn_max_lifetime (pos 300000000000) db
        (d.set_max_idle_conns (pos 5) db (d.set_max_open_conns (pos 25) db w))

  -- `Open`, after sql.Open has made the pool.
  unfoldable pub verify : P → W → W × Result P
  verify db w =
      let (w', pinged) = d.ping db (set_limits db w) in
      elim pinged [
        | none ↦ (w', ok db)
        | some e ↦ ((d.close db w').0, err (wrap (bytes "repository: ping postgres") e))
      ]

  -- `Open`
  unfoldable pub open_db : Text → W → W × Result P
  unfolding verify
  open_db dsn w =
      let (w', opened) = d.sql_open dsn w in
      elim opened [
        | err e ↦ (w', err (wrap (bytes "repository: open postgres") e))
        | ok db ↦ verify db w'
      ]

  -- `Migrate`
  unfoldable pub migrate : PostgresRepo P → W → W × Option Error
  migrate r w =
      let (w', failed) = d.exec_migrate_sql r.db w in
      elim failed [ none ↦ (w', none) | some e ↦ (w', some (wrap (bytes "repository: migrate") e)) ]

-- `pools` counts the pools that are open: sql.Open makes one unless it fails, Close closes it even if
-- it reports an error, and the other calls neither make nor close one.
abbrev pub made : {A : Type 0} → Result A → ℕ → ℕ
made (ok a) n = suc n
made (err e) n = n

pub record CountsPools {P W : Type 0} (d : Driver P W) (pools : W → ℕ) : Type 0 where
  pub makes :
      (dsn : Text) (w : W) → pools (d.sql_open dsn w).0 ≡ made (d.sql_open dsn w).1 (pools w)
  pub closes : (db : P) (w : W) → pools (d.close db w).0 ≡ pools w - 1
  pub sets_open : (n : ℤ) (db : P) (w : W) → pools (d.set_max_open_conns n db w) ≡ pools w
  pub sets_idle : (n : ℤ) (db : P) (w : W) → pools (d.set_max_idle_conns n db w) ≡ pools w
  pub sets_lifetime : (n : ℤ) (db : P) (w : W) → pools (d.set_conn_max_lifetime n db w) ≡ pools w
  pub pings : (db : P) (w : W) → pools (d.ping db w).0 ≡ pools w
  pub migrates : (db : P) (w : W) → pools (d.exec_migrate_sql db w).0 ≡ pools w

module _ {P W : Type 0} (d : Driver P W) (pools : W → ℕ) (counts : CountsPools d pools) where
  set_limits-pools : (db : P) (w : W) → pools (set_limits d db w) ≡ pools w
  set_limits-pools db w =
      counts.sets_lifetime (pos 300000000000) db _
      ∙ counts.sets_idle (pos 5) db _
      ∙ counts.sets_open (pos 25) db w

  -- A pool that does not answer the ping is closed.
  verify-pools :
      (db : P) (w : W) (n : ℕ)
      → pools w ≡ suc n
      → pools (verify d db w).0 ≡ made (verify d db w).1 n
  unfolding verify
  verify-pools db w n h =
      let pinged = counts.pings db (set_limits d db w) ∙ set_limits-pools db w ∙ h in
      elim (Option-cases (d.ping db (set_limits d db w)).1) [
        | inl x ↦ rw (x, verify) pinged
        | inr (e, x) ↦ rw (x, verify) (counts.closes db _ ∙ omega (arith, pinged))
      ]

  -- Open leaves a pool only with a result.
  pub open_db-pools :
      (dsn : Text) (w : W) → pools (open_db d dsn w).0 ≡ made (open_db d dsn w).1 (pools w)
  unfolding open_db
  open_db-pools dsn w =
      let opened = counts.makes dsn w in
      elim (Result-cases (d.sql_open dsn w).1) [
        | inl (db, x) ↦
            rw (x, open_db) (verify-pools db _ (pools w) (opened ∙ ap (λ r. made r (pools w)) x))
        | inr (e, x) ↦ rw (x, open_db) (opened ∙ ap (λ r. made r (pools w)) x)
      ]

  pub migrate-pools : (r : PostgresRepo P) (w : W) → pools (migrate d r w).0 ≡ pools w
  unfolding migrate
  migrate-pools r w = elim (Option-cases (d.exec_migrate_sql r.db w).1) [
    | inl x ↦ rw (x, migrate) (counts.migrates r.db w)
    | inr (e, x) ↦ rw (x, migrate) (counts.migrates r.db w)
  ]
