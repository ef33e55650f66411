-- ===== src/Middleware/Agreement.antt =====
-- Which requests RequireAPIKey and LimitConcurrency answer alike around two handlers.
use carrier_gateway.Prelude.{
  ℕ, ◌≡◌, refl, sym, ap, ◌∙◌, Text, ltb, lt→ltb, ◌<◌, false, some, Option, List, Bool-cases,
  Option-cases, inl, inr, arith,
}
use carrier_gateway.Prelude.Maps.{member}
use carrier_gateway.Float.{FloatOps}
use carrier_gateway.Limiter.{TokenBucket}
use carrier_gateway.Middleware.{Request, Writer, HttpHandler}
use carrier_gateway.Middleware.Address.{client_ip}
use carrier_gateway.Middleware.Auth.{
  Guarded, key_id, check, bearer_token, match_key, authenticate, require_api_key,
}
use carrier_gateway.Middleware.Slots.{Limited, limit_concurrency}
use carrier_gateway.Middleware.Grants.{Carries, require_api_key-reject, require_api_key-full}

-- Two handlers that answer a request alike, whatever client the context names.
abbrev pub Agree : {S : Type 0} → HttpHandler S → HttpHandler S → Request → Type 0
Agree {S} h k r =
    (id : Option Text) (w : Writer) (s : S)
    → h (record r { client_id = id }) w s ≡ k (record r { client_id = id }) w s

pub limit_concurrency-Agree :
    {W : Type 0} (max : ℕ) (h k : HttpHandler W) (r : Request)
    → Agree h k r
    → Agree (limit_concurrency max h) (limit_concurrency max k) r
unfolding limit_concurrency
limit_concurrency-Agree max h k r a id w s = elim (Bool-cases (ltb s.in_flight max)) [
  | inl e ↦ rw (e, a id w s.rest, limit_concurrency) refl
  | inr e ↦ rw (e, limit_concurrency) refl
]

-- With a free slot the handler runs, and gives the slot back.
pub limit_concurrency-free :
    {W : Type 0} (max : ℕ) (h : HttpHandler W) (r : Request) (w : Writer) (s : Limited W)
    → s.in_flight < max
    → limit_concurrency max h r w s ≡ ((h r w s.rest).0, record s { rest = (h r w s.rest).1 })
unfolding limit_concurrency
limit_concurrency-free max h r w s l =
    rw (lt→ltb s.in_flight max l, limit_concurrency) (ground arith)

module _ {F B W : Type 0} (o : FloatOps F) (tb : TokenBucket F B W) (keys skip_paths : List Text)
    (h k : HttpHandler W) where
  authenticate-Agree :
      (ip : Text) (r : Request) (w : Writer) (s : Guarded B W)
      → Agree h k r
      → authenticate o tb keys h ip r w s ≡ authenticate o tb keys k ip r w s
  unfolding authenticate
  authenticate-Agree ip r w s a = elim (Option-cases (bearer_token r.authorization)) [
    | inl e ↦ rw (e, authenticate) refl
    | inr (t, e) ↦ elim (Option-cases (match_key keys t)) [
      | inl f ↦ rw (e, f, authenticate) refl
      | inr (x, f) ↦ rw (e, f, a (some (key_id x)) w s.rest, authenticate) refl
    ]
  ]

  pub require_api_key-Agree :
      (r : Request) (w : Writer) (s : Guarded B W)
      → Agree h k r
      → require_api_key o tb keys skip_paths h r w s ≡ require_api_key o tb keys skip_paths k r w s
  unfolding require_api_key
  require_api_key-Agree r w s a = elim (Bool-cases (member r.path skip_paths)) [
    | inl p ↦
        rw (p, require_api_key) (ap (λ x. (x.0, record s { rest = x.1 })) (a r.client_id w s.rest))
    | inr p ↦ elim (Bool-cases (check o tb (client_ip r.remote_addr) s).1) [
      | inl e ↦
          rw (p, e, require_api_key)
            (authenticate-Agree (client_ip r.remote_addr) r w
              (check o tb (client_ip r.remote_addr) s).0 a)
      | inr e ↦ rw (p, e, require_api_key) refl
    ]
  ]

  -- Without a key the handler does not matter.
  pub require_api_key-keyless :
      (r : Request) (w : Writer) (s : Guarded B W)
      → member r.path skip_paths ≡ false
      → ((x : Text) → ¬ Carries keys r.authorization x)
      → require_api_key o tb keys skip_paths h r w s ≡ require_api_key o tb keys skip_paths k r w s
  require_api_key-keyless r w s p n =
      let ip = client_ip r.remote_addr in
      elim (Bool-cases (check o tb ip s).1) [
        | inl e ↦
            require_api_key-reject o tb keys skip_paths h ip r w s refl p n e
            ∙ sym (require_api_key-reject o tb keys skip_paths k ip r w s refl p n e)
        | inr e ↦
            require_api_key-full o tb keys skip_paths h ip r w s refl p e
            ∙ sym (require_api_key-full o tb keys skip_paths k ip r w s refl p e)
      ]
