-- ===== src/Adapter/Refusals.antt =====
-- http_carrier.go: Post on top of doOnce, and what becomes of a response with a status from 400 to 499.
use carrier_gateway.Prelude.{
  ℕ, suc, ℤ, pos, ◌≤ℤ◌, ◌<ℤ◌, leb_int, ltb_int, ◌≡◌, refl, ap, ◌∙◌, bytes, true, none, some, arith,
}
use carrier_gateway.Domain.{Context, Error, opaque, wrap, ok, err}
use carrier_gateway.Adapter.Http.{
  HttpCarrierConfig, Client, Clock, http_client, Reply, refused, exchange_of, is_client_error,
  nil_error, Wire, read_response, do_once, wait_before, attempts, rounds, post,
}

leb_true : (a b : ℤ) → a ≤ℤ b → leb_int a b ≡ true
leb_true a b h = ground arith

ltb_true : (a b : ℤ) → a <ℤ b → ltb_int a b ≡ true
ltb_true a b h = ground arith

exchange-refused :
    {A : Type 0} (status : ℤ) (out : A) (e : Error)
    → pos 400 ≤ℤ status
    → status <ℤ pos 500
    → exchange_of (status, (out, some e)) ≡ refused e
exchange-refused status out e h k =
    rw (leb_true (pos 400) status h, ltb_true status (pos 500) k, exchange_of, is_client_error) refl

attempts-refused :
    {A W : Type 0} (client : Client A W) (cfg : HttpCarrierConfig) (ctx : Context W) (left : ℕ)
    (delay : ℤ) (last : Error) (out : A) (w w' : W) (x : Reply A) (e : Error)
    → client.do_once (client.with_timeout ctx cfg.timeout w) out w ≡ (w', x)
    → exchange_of x ≡ refused e
    → attempts client cfg ctx (suc left) 0 delay last out w
      ≡ (w', err (wrap (bytes "non-retryable status") e))
unfolding attempts wait_before
attempts-refused client cfg ctx left delay last out w w' x e p q =
    let refused_first = ap (λ y. exchange_of y.1) p ∙ q in
    rw (refused_first, attempts) (ap (λ y. (y.0, err (wrap (bytes "non-retryable status") e))) p)

module _ {A R W : Type 0} (wire : Wire A R W) (clock : Clock W) (cfg : HttpCarrierConfig)
    (ctx : Context W) where
  -- The context of the first attempt.
  abbrev pub first_context : W → Context W
  first_context w = clock.with_timeout ctx cfg.timeout w

  do_once-error :
      (out : A) (w w' : W) (r : R)
      → wire.build ≡ none
      → wire.send (first_context w) w ≡ (w', ok r)
      → pos 400 ≤ℤ wire.status_code r
      → do_once wire (first_context w) out w
        ≡ (w', (wire.status_code r, (out, some (opaque (wire.describe r)))))
  unfolding do_once read_response
  do_once-error out w w' r b e h =
      rw (b, do_once)
        (ap (read_response wire out) e
          ∙ rw (leb_true (pos 400) (wire.status_code r) h, read_response) refl)

  -- A carrier that answers the first exchange with a status from 400 to 499 is not asked again: Post
  -- returns that error at once, in the state that the exchange leaves, if the number of retries is not
  -- negative.
  post-refused :
      (out : A) (w w' : W) (r : R)
      → (n : ℕ) → cfg.max_retries ≡ pos n
      → wire.build ≡ none
      → wire.send (first_context w) w ≡ (w', ok r)
      → pos 400 ≤ℤ wire.status_code r
      → wire.status_code r <ℤ pos 500
      → post (http_client wire clock) cfg ctx none out w
        ≡ (w', err (wrap (bytes "non-retryable status") (opaque (wire.describe r))))
  unfolding post rounds
  post-refused out w w' r n p b e h k =
      ap
        (λ m.
          attempts (http_client wire clock) cfg ctx (rounds m) 0 cfg.retry_delay nil_error out w)
        p
      ∙ attempts-refused (http_client wire clock) cfg ctx n cfg.retry_delay nil_error out w w'
          (wire.status_code r, (out, some (opaque (wire.describe r)))) (opaque (wire.describe r))
          (do_once-error out w w' r b e h)
          (exchange-refused (wire.status_code r) out (opaque (wire.describe r)) h k)
