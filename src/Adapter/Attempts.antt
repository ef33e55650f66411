-- ===== src/Adapter/Attempts.antt =====
-- http_carrier.go: how many exchanges a call of Post makes, and when it stops early.
use carrier_gateway.Prelude.{
  ℕ, zero, suc, ◌+◌, ◌≤◌, ℤ, ◌≡◌, refl, Option, none, some, Option-cases, arith, inl, inr, ◌⊎◌,
}
use carrier_gateway.Domain.{Context, Error}
use carrier_gateway.Adapter.Http.{
  HttpCarrierConfig, Exchange, answered, refused, failed, exchange_of, Client, wait_before,
  next_delay, attempts, post, rounds, nil_error,
}

Exchange-cases :
    {A : Type 0} (x : Exchange A)
    → ((a : A) × (x ≡ answered a))
      ⊎ (((e : Error) × (x ≡ refused e)) ⊎ ((e : Error) × ((a : A) × (x ≡ failed e a))))
Exchange-cases (answered a) = inl (a, refl)
Exchange-cases (refused e) = inr (inl (e, refl))
Exchange-cases (failed e a) = inr (inr (e, (a, refl)))

-- `count` counts the exchanges: each adds one, and waiting adds none.
pub record Counts {A W : Type 0} (client : Client A W) (count : W → ℕ) : Type 0 where
  pub exchanges :
      (ctx : Context W) (out : A) (w : W) → count (client.do_once ctx out w).0 ≡ suc (count w)
  pub waits : (ctx : Context W) (d : ℤ) (w : W) → count (client.wait ctx d w).0 ≡ count w

-- Every exchange fails in a way that is retried, and no wait is cancelled.
pub record Fails {A W : Type 0} (client : Client A W) : Type 0 where
  pub retryable :
      (ctx : Context W) (out : A) (w : W)
      → (e : Error) × ((a : A) × (exchange_of (client.do_once ctx out w).1 ≡ failed e a))
  pub patient : (ctx : Context W) (d : ℤ) (w : W) → (client.wait ctx d w).1 ≡ none

module _ {A W : Type 0} (client : Client A W) (cfg : HttpCarrierConfig) (ctx : Context W)
    (count : W → ℕ) (counts : Counts client count) where
  wait_before-count :
      (n : ℕ) (delay : ℤ) (w : W) → count (wait_before client cfg ctx n delay w).0 ≡ count w
  unfolding wait_before
  wait_before-count zero delay w = refl
  wait_before-count (suc n) delay w = counts.waits ctx delay w

  wait_before-none :
      (n : ℕ) (delay : ℤ) (w : W) → Fails client → (wait_before client cfg ctx n delay w).1 ≡ none
  unfolding wait_before
  wait_before-none zero delay w f = refl
  wait_before-none (suc n) delay w f = f.patient ctx delay w

  attempts-count :
      (left n : ℕ) (delay : ℤ) (last : Error) (out : A) (w : W)
      → count (attempts client cfg ctx left n delay last out w).0 ≤ count w + left
  unfolding attempts
  attempts-count zero n delay last out w = omega arith
  attempts-count (suc left) n delay last out w =
      let (w', c) = wait_before client cfg ctx n delay w in
      let same = wait_before-count n delay w in
      elim (Option-cases (wait_before client cfg ctx n delay w).1) [
        | inr (s, e) ↦ rw (e, attempts) (omega arith)
        | inl e ↦
            let done = client.do_once (client.with_timeout ctx cfg.timeout w') out w' in
            let one = counts.exchanges (client.with_timeout ctx cfg.timeout w') out w' in
            elim (Exchange-cases (exchange_of done.1)) [
              | inl (a, x) ↦ rw (e, attempts) (rw (x, attempts) (omega arith))
              | inr (inl (y, x)) ↦ rw (e, attempts) (rw (x, attempts) (omega arith))
              | inr (inr (y, (out', x))) ↦
                  rw (e, attempts)
                    (rw (x, attempts)
                      (omega (
                        arith,
                        attempts-count left (suc n) (next_delay client cfg ctx n delay) y out'
                            done.0,
                      )))
            ]
      ]

  -- Post makes at most one exchange more than the configuration allows retries, and none for a
  -- negative number.
  pub post-count :
      (encoded : Option Error) (out : A) (w : W)
      → count (post client cfg ctx encoded out w).0 ≤ count w + rounds cfg.max_retries
  unfolding post
  post-count (some e) out w = omega arith
  post-count none out w = attempts-count (rounds cfg.max_retries) 0 cfg.retry_delay nil_error out w

  attempts-exhaust :
      (left n : ℕ) (delay : ℤ) (last : Error) (out : A) (w : W)
      → Fails client
      → count (attempts client cfg ctx left n delay last out w).0 ≡ count w + left
  unfolding attempts
  attempts-exhaust zero n delay last out w f = omega arith
  attempts-exhaust (suc left) n delay last out w f =
      let (w', c) = wait_before client cfg ctx n delay w in
      let same = wait_before-count n delay w in
      let done = client.do_once (client.with_timeout ctx cfg.timeout w') out w' in
      let one = counts.exchanges (client.with_timeout ctx cfg.timeout w') out w' in
      let (y, (out', x)) = f.retryable (client.with_timeout ctx cfg.timeout w') out w' in
      rw (wait_before-none n delay w f, attempts)
        (rw (x, attempts)
          (omega (
            arith,
            attempts-exhaust left (suc n) (next_delay client cfg ctx n delay) y out' done.0 f,
          )))

  -- As long as every exchange fails in a way that is retried, and no wait is cancelled, Post of a
  -- request that was encoded makes one exchange more than the configured retries, and none if their
  -- number is negative.
  pub post-exhausts :
      (out : A) (w : W)
      → Fails client
      → count (post client cfg ctx none out w).0 ≡ count w + rounds cfg.max_retries
  unfolding post
  post-exhausts out w f =
      attempts-exhaust (rounds cfg.max_retries) 0 cfg.retry_delay nil_error out w f
