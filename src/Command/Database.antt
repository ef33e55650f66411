-- ===== src/Command/Database.antt =====
-- main.go: the database that the program runs with, and its end.
use carrier_gateway.Prelude.{
  ℕ, suc, ◌≡◌, ◌∙◌, refl, ap, Text, Bool, [], ◌∷◌, Option, none, some, Option-cases, some_inj, inl,
  inr, arith,
}
use carrier_gateway.Domain.{Error, Result, ok, err}
use carrier_gateway.Repository.Connection.{
  Driver, PostgresRepo, new_repo, open_db, migrate, CountsPools, made, open_db-pools, migrate-pools,
}
use carrier_gateway.Command.Exit.{
  Ending, signalled, served, not_served, Closing, ending_of, exit_main, shutdown, run_if,
  close_after, exit_code_success, exit_code_drain_timeout,
}

-- The variables `db` and `repo`, none for nil.
pub record Database (P : Type 0) : Type 0 where
  pub pool : Option P
  pub repo : Option (PostgresRepo P)

abbrev no_database : {P : Type 0} → Database P
no_database = record { pool = none; repo = none }

module _ {P W : Type 0} (d : Driver P W) where
  abbrev after_migrate : P → W × Option Error → W × Database P
  after_migrate db (w, some e) = (w, record { pool = some db; repo = none })
  after_migrate db (w, none) = (w, record { pool = some db; repo = some (new_repo db) })

  abbrev after_open : W × Result P → W × Database P
  after_open (w, err e) = (w, no_database)
  after_open (w, ok db) = after_migrate db (migrate d (new_repo db) w)

  -- At a value of DATABASE_URL.
  unfoldable pub connect : Text → W → W × Database P
  connect [] w = (w, no_database)
  connect (b ∷ dsn) w = after_open (open_db d (b ∷ dsn) w)

  -- What is called at the end: there is a ticker exactly if there is a repository.
  unfoldable pub closing_of : (W → W) → (W → W × Option Error) → Database P → Closing W
  closing_of stop drain database = record {
    stop_cleanup = elim database.repo [ none ↦ none | some r ↦ some stop ];
    drain = drain;
    close_db = elim database.pool [ none ↦ none | some db ↦ some (λ w. (d.close db w).0) ];
  }

abbrev pub held : {P : Type 0} → Option P → ℕ → ℕ
held none n = n
held (some db) n = suc n

-- A repository stands on the pool that is open.
abbrev pub Backed : {P : Type 0} → Database P → Type 0
Backed {P} database = (r : PostgresRepo P) → database.repo ≡ some r → database.pool ≡ some r.db

-- Code that neither makes nor closes a pool.
abbrev pub KeepsPools : {W : Type 0} → (W → ℕ) → (W → W) → Type 0
KeepsPools {W} pools f = (w : W) → pools (f w) ≡ pools w

module _ {P W : Type 0} (d : Driver P W) (pools : W → ℕ) (counts : CountsPools d pools) where
  after_migrate-pools :
      (db : P) (n : ℕ) (r : W × Option Error)
      → pools r.0 ≡ suc n
      → let after = after_migrate d db r in (pools after.0 ≡ held after.1.pool n) × Backed after.1
  after_migrate-pools db n (w, some e) h = (h, (λ r e. absurd (ground arith)))
  after_migrate-pools db n (w, none) h = (h, (λ r e. ap (λ x. some x.db) (some_inj e)))

  after_open-pools :
      (n : ℕ) (r : W × Result P)
      → pools r.0 ≡ made r.1 n
      → let after = after_open d r in (pools after.0 ≡ held after.1.pool n) × Backed after.1
  after_open-pools n (w, err e) h = (h, (λ r e. absurd (ground arith)))
  after_open-pools n (w, ok db) h =
      after_migrate-pools db n (migrate d (new_repo db) w)
        (migrate-pools d pools counts (new_repo db) w ∙ h)

  -- The pool that is open is the one the program knows of.
  connect-pools :
      (dsn : Text) (w : W)
      → let after = connect d dsn w in
        (pools after.0 ≡ held after.1.pool (pools w)) × Backed after.1
  unfolding connect
  connect-pools [] w = (refl, (λ r e. absurd (ground arith)))
  connect-pools (b ∷ dsn) w =
      after_open-pools (pools w) (open_db d (b ∷ dsn) w) (open_db-pools d pools counts (b ∷ dsn) w)

  module _ (run stop : W → W) (drain : W → W × Option Error) (runs : KeepsPools pools run)
      (stops : KeepsPools pools stop) (drains : KeepsPools pools (λ w. (drain w).0)) where
    stop-pools :
        (database : Database P) (w : W)
        → pools (run_if (closing_of d stop drain database).stop_cleanup w) ≡ pools w
    unfolding closing_of
    stop-pools database w = elim (Option-cases database.repo) [
      | inl x ↦ rw (x) refl
      | inr (r, x) ↦ rw (x) (stops w)
    ]

    shutdown-pools : (w : W) → pools (shutdown drain w).0 ≡ pools w
    unfolding shutdown
    shutdown-pools w = elim (Option-cases (drain w).1) [
      | inl x ↦ rw (x, shutdown) (drains w)
      | inr (e, x) ↦ rw (x, shutdown) (drains w)
    ]

    close-pools :
        (database : Database P) (n : ℕ) (r : W × Option Error)
        → pools r.0 ≡ held database.pool n
        → let end = close_after (closing_of d stop drain database) r in
          (end.1 ≡ exit_code_success → pools end.0 ≡ n)
          × (end.1 ≡ exit_code_drain_timeout → pools end.0 ≡ held database.pool n)
    unfolding closing_of
    close-pools database n (w, some e) h = ((λ x. absurd (omega (arith, x))), (λ x. h))
    close-pools database n (w, none) h = (
      (λ x. elim (Option-cases database.pool) [
        | inl e ↦ rw (e) (h ∙ ap (λ p. held p n) e)
        | inr (db, e) ↦
            let one = h ∙ ap (λ p. held p n) e in rw (e) (counts.closes db w ∙ omega (arith, one))
      ]),
      (λ x. absurd (omega (arith, x))),
    )

    exit-pools :
        (database : Database P) (ending : Ending) (w : W) (n : ℕ)
        → pools w ≡ held database.pool n
        → let end = exit_main (closing_of d stop drain database) ending w in
          (end.1 ≡ exit_code_success → pools end.0 ≡ n)
          × (end.1 ≡ exit_code_drain_timeout → pools end.0 ≡ held database.pool n)
    unfolding exit_main closing_of
    exit-pools database (not_served e) w n h = ((λ x. absurd (omega (arith, x))), (λ x. h))
    exit-pools database signalled w n h =
        close-pools database n _ (shutdown-pools _ ∙ stop-pools database w ∙ h)
    exit-pools database served w n h =
        close-pools database n _ (shutdown-pools _ ∙ stop-pools database w ∙ h)

    -- At an exit with code 0 as many pools of connections are open as before the program has connected,
    -- whatever DATABASE_URL is, whichever of sql.Open, Ping and the migration fails, and however
    -- serving ends, if the code that serves, the ticker and the drain neither make nor close a pool; at
    -- an exit with code 1 the pool of the program, if there is one, is still open; and a repository
    -- stands on the pool of the program.
    pub main-pools :
        (dsn : Text) (is_closed : Error → Bool) (listened : Option (Option Error)) (w : W)
        → let (w', database) = connect d dsn w in
          let end =
            exit_main (closing_of d stop drain database) (ending_of is_closed listened) (run w') in
          Backed database
          × ((end.1 ≡ exit_code_success → pools end.0 ≡ pools w)
              × (end.1 ≡ exit_code_drain_timeout → pools end.0 ≡ held database.pool (pools w)))
    main-pools dsn is_closed listened w =
        let (held_pools, backed) = connect-pools dsn w in
        let (w', database) = connect d dsn w in
        (
          backed,
          exit-pools database (ending_of is_closed listened) (run w') (pools w)
              (runs w' ∙ held_pools),
        )
