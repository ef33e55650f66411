-- ===== src/Middleware/Chain.antt =====
-- The handler of main.go: AuditLog around SecurityHeaders around RequireAPIKey around
-- LimitConcurrency; and the headers of every response.
use carrier_gateway.Prelude.{
  ℕ, ℤ, Text, bytes, some, List, [], ◌∷◌, Bool-cases, Option-cases, inl, inr, ltb,
}
use carrier_gateway.Prelude.Maps.{member}
use carrier_gateway.Float.{FloatOps}
use carrier_gateway.Limiter.{TokenBucket}
use carrier_gateway.Middleware.{Request, Writer, HttpHandler, set_header}
use carrier_gateway.Middleware.Address.{client_ip}
use carrier_gateway.Middleware.Audit.{
  AuditEntry, audit_log, security_headers, with_security_headers,
}
use carrier_gateway.Middleware.Auth.{
  Guarded, bearer_token, match_key, check, authenticate, require_api_key, key_id,
}
use carrier_gateway.Middleware.Slots.{Limited, limit_concurrency}
use carrier_gateway.Middleware.Headers.{
  HasHeaders, security, LeavesHeaders, with_security_headers-HasHeaders, json-HasHeaders,
  retry-HasHeaders,
}

-- `skipAuth`
abbrev pub skip_auth : List Text
skip_auth = bytes "/healthz" ∷ bytes "/metrics" ∷ bytes "/readyz" ∷ []

limit_concurrency-LeavesHeaders :
    {W : Type 0} (max : ℕ) (next : HttpHandler W)
    → LeavesHeaders next
    → LeavesHeaders (limit_concurrency max next)
unfolding limit_concurrency
limit_concurrency-LeavesHeaders max next l r w s h = elim (Bool-cases (ltb s.in_flight max)) [
  | inl e ↦ rw (e, limit_concurrency) (l r w s.rest h)
  | inr e ↦
      rw (e, limit_concurrency)
        (retry-HasHeaders (bytes "1")
          (set_header (bytes "Content-Type") (bytes "application/json") w) (json-HasHeaders w h))
]

module _ {F B W : Type 0} (o : FloatOps F) (tb : TokenBucket F B W) (keys skip_paths : List Text)
    (next : HttpHandler W) (l : LeavesHeaders next) where
  authenticate-LeavesHeaders : (ip : Text) → LeavesHeaders (authenticate o tb keys next ip)
  unfolding authenticate
  authenticate-LeavesHeaders ip r w s h = elim (Option-cases (bearer_token r.authorization)) [
    | inl e ↦ rw (e, authenticate) (json-HasHeaders w h)
    | inr (t, e) ↦ elim (Option-cases (match_key keys t)) [
      | inl f ↦ rw (e, f, authenticate) (json-HasHeaders w h)
      | inr (k, f) ↦
          rw (e, f, authenticate) (l (record r { client_id = some (key_id k) }) w s.rest h)
    ]
  ]

  require_api_key-LeavesHeaders : LeavesHeaders (require_api_key o tb keys skip_paths next)
  unfolding require_api_key
  require_api_key-LeavesHeaders r w s h = elim (Bool-cases (member r.path skip_paths)) [
    | inl p ↦ rw (p, require_api_key) (l r w s.rest h)
    | inr p ↦ elim (Bool-cases (check o tb (client_ip r.remote_addr) s).1) [
      | inl e ↦
          rw (p, e, require_api_key)
            (authenticate-LeavesHeaders (client_ip r.remote_addr) r w
              (check o tb (client_ip r.remote_addr) s).0 h)
      | inr e ↦
          rw (p, e, require_api_key)
            (retry-HasHeaders (bytes "60")
              (set_header (bytes "Content-Type") (bytes "application/json") w)
              (json-HasHeaders w h))
    ]
  ]

module _ {F B W : Type 0} (o : FloatOps F) (tb : TokenBucket F B (Limited W)) where
  -- `finalHandler`
  unfoldable pub final_handler :
      (Guarded B (Limited W) → ℤ)
      → (AuditEntry → Guarded B (Limited W) → Guarded B (Limited W))
      → List Text
      → ℕ
      → HttpHandler W
      → HttpHandler (Guarded B (Limited W))
  unfolding audit_log security_headers require_api_key limit_concurrency
  final_handler now log keys max mux =
      audit_log now log
        (security_headers (require_api_key o tb keys skip_auth (limit_concurrency max mux)))

  -- Every response has the five security headers, the rejections with 401, 429 and 503 too, if the
  -- mux overwrites none of them.
  pub final_handler-HasHeaders :
      (now : Guarded B (Limited W) → ℤ)
      (log : AuditEntry → Guarded B (Limited W) → Guarded B (Limited W)) (keys : List Text)
      (max : ℕ) (mux : HttpHandler W) (r : Request) (w : Writer) (s : Guarded B (Limited W))
      → LeavesHeaders mux
      → HasHeaders security (final_handler now log keys max mux r w s).0
  unfolding final_handler audit_log security_headers
  final_handler-HasHeaders now log keys max mux r w s l =
      require_api_key-LeavesHeaders o tb keys skip_auth (limit_concurrency max mux)
        (limit_concurrency-LeavesHeaders max mux l) r (with_security_headers w) s
        (with_security_headers-HasHeaders w)
