-- ===== src/Middleware/Failures.antt =====
-- auth.go: the buckets of failed attempts, one for each address.
use carrier_gateway.Prelude.{
  ◌≡◌, ◌≢◌, inl, inr, refl, ◌∙◌, Text, text_eq_iff, some, List, Bool-cases, Option-cases, arith,
}
use carrier_gateway.Prelude.Maps.{lookup, insert, member, lookup-insert, lookup-insert_self}
use carrier_gateway.Float.{FloatOps}
use carrier_gateway.Limiter.{TokenBucket}
use carrier_gateway.Middleware.{Request, Writer, HttpHandler}
use carrier_gateway.Middleware.Address.{client_ip}
use carrier_gateway.Middleware.Auth.{
  Guarded, new_failure_bucket, get_or_create, check, record_failure, match_key, bearer_token,
  authenticate, require_api_key,
}

module _ {F B W : Type 0} (o : FloatOps F) (tb : TokenBucket F B W) where
  lookup-other :
      (ip j : Text) (b : B) (ips : List (Text × B))
      → j ≢ ip
      → lookup j (insert ip b ips) ≡ lookup j ips
  lookup-other ip j b ips d = ground (arith, lookup-insert ip j b ips, text_eq_iff ip j)

  get_or_create-other :
      (ip j : Text) (ips : List (Text × B))
      → j ≢ ip
      → lookup j (get_or_create o tb ip ips).1 ≡ lookup j ips
  unfolding get_or_create
  get_or_create-other ip j ips d = elim (Option-cases (lookup ip ips)) [
    | inl e ↦ rw (e, get_or_create) (lookup-other ip j (new_failure_bucket o tb) ips d)
    | inr (b, e) ↦ rw (e, get_or_create) refl
  ]

  record_failure-other :
      (ip j : Text) (s : Guarded B W)
      → j ≢ ip
      → lookup j (record_failure o tb ip s).ips ≡ lookup j s.ips
  unfolding record_failure
  record_failure-other ip j s d =
      lookup-other ip j (tb.allow (get_or_create o tb ip s.ips).0 s.rest).0
        (get_or_create o tb ip s.ips).1 d
      ∙ get_or_create-other ip j s.ips d

  -- The bucket that the address has, or will get.
  abbrev pub bucket_of : Text → Guarded B W → B
  bucket_of ip s = (get_or_create o tb ip s.ips).0

  get_or_create-found :
      (ip : Text) (b : B) (ips : List (Text × B))
      → lookup ip ips ≡ some b
      → (get_or_create o tb ip ips).0 ≡ b
  unfolding get_or_create
  get_or_create-found ip b ips e = rw (e, get_or_create) refl

  get_or_create-lookup :
      (ip : Text) (ips : List (Text × B))
      → lookup ip (get_or_create o tb ip ips).1 ≡ some (get_or_create o tb ip ips).0
  unfolding get_or_create
  get_or_create-lookup ip ips = elim (Option-cases (lookup ip ips)) [
    | inl e ↦ rw (e, get_or_create) (lookup-insert_self ip (new_failure_bucket o tb) ips)
    | inr (b, e) ↦ rw (e, get_or_create) e
  ]

  -- A check keeps the bucket; a failure takes a token of it.
  pub check-bucket_of :
      (ip : Text) (s : Guarded B W) → bucket_of ip (check o tb ip s).0 ≡ bucket_of ip s
  unfolding check
  check-bucket_of ip s = get_or_create-found ip _ _ (get_or_create-lookup ip s.ips)

  pub record_failure-bucket_of :
      (ip : Text) (s : Guarded B W)
      → bucket_of ip (record_failure o tb ip s) ≡ (tb.allow (bucket_of ip s) s.rest).0
  unfolding record_failure
  record_failure-bucket_of ip s =
      get_or_create-found ip _ _
        (lookup-insert_self ip (tb.allow (bucket_of ip s) s.rest).0 (get_or_create o tb ip s.ips).1)

  module _ (keys skip_paths : List Text) (next : HttpHandler W) where
    authenticate-other :
        (ip j : Text) (r : Request) (w : Writer) (s : Guarded B W)
        → j ≢ ip
        → lookup j (authenticate o tb keys next ip r w s).1.ips ≡ lookup j s.ips
    unfolding authenticate
    authenticate-other ip j r w s d = elim (Option-cases (bearer_token r.authorization)) [
      | inl e ↦ rw (e, authenticate) (record_failure-other ip j s d)
      | inr (t, e) ↦ elim (Option-cases (match_key keys t)) [
        | inl f ↦ rw (e, f, authenticate) (record_failure-other ip j s d)
        | inr (k, f) ↦ rw (e, f, authenticate) refl
      ]
    ]

    check-other :
        (ip j : Text) (s : Guarded B W) → j ≢ ip → lookup j (check o tb ip s).0.ips ≡ lookup j s.ips
    unfolding check
    check-other ip j s d = get_or_create-other ip j s.ips d

    -- A request changes the bucket of its own address only.
    pub require_api_key-other :
        (j : Text) (r : Request) (w : Writer) (s : Guarded B W)
        → j ≢ client_ip r.remote_addr
        → lookup j (require_api_key o tb keys skip_paths next r w s).1.ips ≡ lookup j s.ips
    unfolding require_api_key
    require_api_key-other j r w s d = elim (Bool-cases (member r.path skip_paths)) [
      | inl p ↦ rw (p, require_api_key) refl
      | inr p ↦ elim (Bool-cases (check o tb (client_ip r.remote_addr) s).1) [
        | inl e ↦
            rw (p, e, require_api_key)
              (authenticate-other (client_ip r.remote_addr) j r w
                  (check o tb (client_ip r.remote_addr) s).0 d
                ∙ check-other (client_ip r.remote_addr) j s d)
        | inr e ↦ rw (p, e, require_api_key) (check-other (client_ip r.remote_addr) j s d)
      ]
    ]
