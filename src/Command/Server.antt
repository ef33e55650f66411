-- ===== src/Command/Server.antt =====
-- main.go: the handler of the server, from the audit log down to the routes.
use carrier_gateway.Prelude.{
  ℕ, ℤ, quot, ◌-ℤ◌, ◌≡◌, refl, sym, ap, ◌∙◌, Text, text_eq, false, some, Option, List, Bool-cases,
  inl, inr, arith,
}
use carrier_gateway.Prelude.Maps.{member}
use carrier_gateway.Domain.{QuoteRequest, QuoteResult, Result}
use carrier_gateway.Float.{FloatOps}
use carrier_gateway.Limiter.{TokenBucket}
use carrier_gateway.Middleware.{Request, Writer, HttpHandler}
use carrier_gateway.Middleware.Audit.{
  AuditEntry, recorded_status, client_id_from_context, audit_log, security_headers,
  with_security_headers,
}
use carrier_gateway.Middleware.Auth.{Guarded, key_id, require_api_key}
use carrier_gateway.Middleware.Slots.{Limited, limit_concurrency}
use carrier_gateway.Middleware.Grants.{Carries}
use carrier_gateway.Middleware.Headers.{HasHeaders, security, LeavesHeaders}
use carrier_gateway.Middleware.Chain.{skip_auth, final_handler, final_handler-HasHeaders}
use carrier_gateway.Handler.{handle_post_quotes}
use carrier_gateway.Handler.Mux.{Backend, serve_mux, routes, write_response}
use carrier_gateway.Handler.Routing.{
  IsQuotes, is_quotes, is_quotes_iff, serve_mux-other, serve_mux-LeavesHeaders,
}
use carrier_gateway.Middleware.Agreement.{
  limit_concurrency-Agree, require_api_key-Agree, require_api_key-keyless,
}

-- An answer and its line in the log, which has the status of the answer, the time it took, and the
-- client that the request came with.
abbrev pub logged :
    {S : Type 0} → (S → ℤ) → (AuditEntry → S → S) → Request → S → Writer × S → Writer × S
logged now log r s a = (
  a.0,
  log
      (record {
        method = r.method;
        path = r.path;
        status = recorded_status a.0.codes;
        microseconds = quot (now a.1 -ℤ now s) 1000;
        client_id = client_id_from_context r;
      })
      a.1,
)

-- A request for quotes that carries a key.
abbrev pub IsAuthorised : List Text → Request → Type 0
IsAuthorised keys r = IsQuotes r × ((k : Text) × Carries keys r.authorization k)

-- What an authorised request for quotes is answered with, and the state after it.
abbrev pub answer :
    {B W : Type 0}
    → Backend W
    → (QuoteRequest → W → W × Result (List QuoteResult))
    → Request
    → Text
    → Writer
    → Guarded B (Limited W)
    → Writer × Guarded B (Limited W)
answer b f r k w s =
    let a = handle_post_quotes b.now f (b.decode r.body) (key_id k) s.rest.rest in
    (
      write_response b.encode a.1 (with_security_headers w),
      record s { rest = record s.rest { rest = a.0 } },
    )

module _ {F B W : Type 0} (o : FloatOps F) (tb : TokenBucket F B (Limited W)) (b : Backend W)
    (redirect : Text → Text → Option (Writer → Writer)) (now : Guarded B (Limited W) → ℤ)
    (log : AuditEntry → Guarded B (Limited W) → Guarded B (Limited W)) (keys : List Text)
    (max : ℕ) where
  -- `srv.Handler`, for what the orchestrator answers.
  unfoldable pub server :
      (QuoteRequest → W → W × Result (List QuoteResult)) → HttpHandler (Guarded B (Limited W))
  unfolding final_handler
  server get_quotes = final_handler o tb now log keys max (serve_mux redirect (routes b get_quotes))

  -- Everything inside the audit log.
  abbrev guarded :
      (QuoteRequest → W → W × Result (List QuoteResult)) → HttpHandler (Guarded B (Limited W))
  guarded get_quotes =
      require_api_key o tb keys skip_auth
        (limit_concurrency max (serve_mux redirect (routes b get_quotes)))

  server-logged :
      (f : QuoteRequest → W → W × Result (List QuoteResult)) (r : Request) (w : Writer)
      (s : Guarded B (Limited W))
      → server f r w s ≡ logged now log r s (guarded f r (with_security_headers w) s)
  unfolding server final_handler audit_log security_headers
  server-logged f r w s = refl

  -- A request for quotes is none of those that need no key.
  quotes_need_key : (r : Request) → IsQuotes r → member r.path skip_auth ≡ false
  unfolding member text_eq
  quotes_need_key r q = rw q.0 refl

  guarded-other :
      (f g : QuoteRequest → W → W × Result (List QuoteResult)) (r : Request) (w : Writer)
      (s : Guarded B (Limited W))
      → ¬ IsAuthorised keys r
      → guarded f r w s ≡ guarded g r w s
  guarded-other f g r w s n =
      let h = limit_concurrency max (serve_mux redirect (routes b f)) in
      let k = limit_concurrency max (serve_mux redirect (routes b g)) in
      elim (Bool-cases (is_quotes r)) [
        | inl q ↦
            let asks = (is_quotes_iff r).0 q in
            require_api_key-keyless o tb keys skip_auth h k r w s (quotes_need_key r asks)
              (λ x c. n (asks, (x, c)))
        | inr q ↦ require_api_key-Agree o tb keys skip_auth h k r w s (
            limit_concurrency-Agree max (serve_mux redirect (routes b f))
              (serve_mux redirect (routes b g)) r
              (λ id w' s'.
                serve_mux-other b redirect f g (record r { client_id = id }) w' s'
                  (λ asks. absurd (ground (arith, (is_quotes_iff r).1 asks)))))
      ]

  -- The answer to a request, and the state after it, do not depend on the orchestrator unless the
  -- request is a POST of /quotes that carries a key of the list: no other is passed on to it.
  pub server-other :
      (f g : QuoteRequest → W → W × Result (List QuoteResult)) (r : Request) (w : Writer)
      (s : Guarded B (Limited W))
      → ¬ IsAuthorised keys r
      → server f r w s ≡ server g r w s
  server-other f g r w s n =
      server-logged f r w s
      ∙ (ap (logged now log r s) (guarded-other f g r (with_security_headers w) s n)
          ∙ sym (server-logged g r w s))

  -- Every response has the five security headers, also 401, 404, 405, 429 and 503, if the page of the
  -- metrics and the redirects overwrite none of them.
  pub server-HasHeaders :
      (f : QuoteRequest → W → W × Result (List QuoteResult)) (r : Request) (w : Writer)
      (s : Guarded B (Limited W))
      → LeavesHeaders b.metrics_page
      → ((method path : Text) (to : Writer → Writer)
          → redirect method path ≡ some to
          → (v : Writer) → HasHeaders security v
          → HasHeaders security (to v))
      → HasHeaders security (server f r w s).0
  unfolding server
  server-HasHeaders f r w s page move =
      final_handler-HasHeaders o tb now log keys max (serve_mux redirect (routes b f)) r w s
        (serve_mux-LeavesHeaders b redirect page (λ r'. move r'.method r'.path) f)
