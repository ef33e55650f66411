-- ===== src/Middleware/Auth.antt =====
-- auth.go: RequireAPIKey and the buckets of failures. The handler that it guards works on the state
-- `W`; the buckets are around it, where only RequireAPIKey sees them.
use carrier_gateway.Prelude.{
  pos, ltb, Text, bytes, text_eq, is_empty, Bool, ◌||◌, Option, none, some, List, [], ◌∷◌, ◌++◌,
  length, take, if◌then◌else◌,
}
use carrier_gateway.Prelude.Maps.{lookup, insert, member}
use carrier_gateway.Prelude.Parts.{trim_prefix}
use carrier_gateway.Float.{FloatOps}
use carrier_gateway.Limiter.{TokenBucket}
use carrier_gateway.Middleware.{Writer, HttpHandler, set_header, write_header, write}
use carrier_gateway.Middleware.Address.{client_ip}

-- The bucket of each address, in the state of the process.
pub record Guarded (B W : Type 0) : Type 0 where
  pub ips : List (Text × B)
  pub rest : W

abbrev pub bearer : Text
bearer = bytes "Bearer "

-- The name of a key in the logs: its first eight bytes.
unfoldable pub key_id : Text → Text
key_id k = if ltb 8 (length k) then take 8 k ++ bytes "..." else k

-- The token of the header, if there is one.
unfoldable pub bearer_token : Text → Option Text
bearer_token raw =
    let token = trim_prefix bearer raw in
    if is_empty token || text_eq token raw then none else some token

-- The loop over the keys: the last one that matches counts.
unfoldable pub match_from : Option Text → List Text → Text → Option Text
match_from found [] token = found
match_from found (k ∷ keys) token =
    match_from (if text_eq token k then some k else found) keys token

abbrev pub match_key : List Text → Text → Option Text
match_key = match_from none

abbrev pub unauthorized_body : Text
unauthorized_body = bytes "{\"error\":\"UNAUTHORIZED: missing or invalid API key\"}" ++ 10 ∷ []

abbrev pub too_many_requests_body : Text
too_many_requests_body =
    bytes "{\"error\":\"TOO_MANY_REQUESTS: too many failed authentication attempts\"}" ++ 10 ∷ []

abbrev pub write_unauthorized : Writer → Writer
write_unauthorized w =
    write unauthorized_body
      (write_header (pos 401) (set_header (bytes "Content-Type") (bytes "application/json") w))

abbrev pub write_too_many_requests : Writer → Writer
write_too_many_requests w = write too_many_requests_body (
    write_header (pos 429) (
      set_header (bytes "Retry-After") (bytes "60")
        (set_header (bytes "Content-Type") (bytes "application/json") w)))

module _ {F B W : Type 0} (o : FloatOps F) (tb : TokenBucket F B W) where
  -- `newAuthFailureLimiter` and `rate.NewLimiter`: ten failures, and one more every six seconds.
  abbrev pub new_failure_bucket : B
  new_failure_bucket = tb.new_bucket (o.ratio 1 6) (pos 10)

  -- `getOrCreate`
  unfoldable pub get_or_create : Text → List (Text × B) → B × List (Text × B)
  get_or_create ip ips = elim (lookup ip ips) [
    | none ↦ (new_failure_bucket, insert ip new_failure_bucket ips)
    | some b ↦ (b, ips)
  ]

  -- Whether the bucket has a token.
  abbrev pub has_token : B → W → Bool
  has_token b w = o.lt (o.of_int (pos 1)) (tb.tokens b w) || o.eq (tb.tokens b w) (o.of_int (pos 1))

  -- `check`
  unfoldable pub check : Text → Guarded B W → Guarded B W × Bool
  unfolding get_or_create
  check ip s = let (b, ips) = get_or_create ip s.ips in (record s { ips = ips }, has_token b s.rest)

  -- `recordFailure`
  unfoldable pub record_failure : Text → Guarded B W → Guarded B W
  unfolding get_or_create
  record_failure ip s =
      let (b, ips) = get_or_create ip s.ips in
      record s { ips = insert ip (tb.allow b s.rest).0 ips }

  -- The handler that is guarded does not see the buckets.
  abbrev pub pass : HttpHandler W → HttpHandler (Guarded B W)
  pass next r w s = let (w', rest) = next r w s.rest in (w', record s { rest = rest })

  abbrev pub reject : Text → Writer → Guarded B W → Writer × Guarded B W
  reject ip w s = (write_unauthorized w, record_failure ip s)

  -- From the header on, once the address has a token.
  unfoldable pub authenticate : List Text → HttpHandler W → Text → HttpHandler (Guarded B W)
  unfolding bearer_token match_from record_failure
  authenticate keys next ip r w s = elim (bearer_token r.authorization) [
    | none ↦ reject ip w s
    | some token ↦ elim (match_key keys token) [
      | none ↦ reject ip w s
      | some k ↦ pass next (record r { client_id = some (key_id k) }) w s
    ]
  ]

  -- `RequireAPIKey`
  unfoldable pub require_api_key : List Text → List Text → HttpHandler W → HttpHandler (Guarded B W)
  unfolding authenticate check
  require_api_key keys skip_paths next r w s =
      if member r.path skip_paths
      then pass next r w s
      else (let ip = client_ip r.remote_addr in
          let (s', allowed) = check ip s in
          if allowed then authenticate keys next ip r w s' else (write_too_many_requests w, s'))
