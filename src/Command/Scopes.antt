-- ===== src/Command/Scopes.antt =====
-- auth.go, http.go and orchestrator.go together: under which key the quotes of an authenticated request
-- are cached and its fan-out is shared.
use mathlib.Core.Path.{ap₂}
use carrier_gateway.Prelude.{
  ℕ, zero, suc, ◌<◌, lt→ltb, ◌≡◌, ◌↔◌, refl, sym, ap, ◌∙◌, Text, bytes, [], ◌∷◌, ◌++◌, length, take,
  arith,
}
use mathlib.Core.List.{append_assoc}
use carrier_gateway.Domain.{QuoteRequest}
use carrier_gateway.Handler.{Body, build_domain_request}
use carrier_gateway.Middleware.Auth.{key_id}
use carrier_gateway.Orchestrator.Eligible.{scoped_key}

-- The key of a request that came with an API key.
abbrev pub cache_key : Text → Body → Text
cache_key key body = scoped_key (build_domain_request body (key_id key))

length-take : (n : ℕ) (k : Text) → n < length k → length (take n k) ≡ n
length-take zero k h = refl
length-take (suc n) [] h = absurd (omega (arith, h))
length-take (suc n) (b ∷ k) h = omega (arith, length-take n k (omega (arith, h)))

append_inj : (a b s t : Text) → length a ≡ length b → a ++ s ≡ b ++ t → (a ≡ b) × (s ≡ t)
append_inj [] [] s t l h = (refl, h)
append_inj [] (y ∷ b) s t l h = absurd (ground arith)
append_inj (x ∷ a) [] s t l h = absurd (ground arith)
append_inj (x ∷ a) (y ∷ b) s t l h = ground (arith, append_inj a b s t)

key_id-long : (key : Text) → 8 < length key → key_id key ≡ take 8 key ++ bytes "..."
unfolding key_id
key_id-long key h = rw (lt→ltb 8 (length key) h, key_id) refl

scoped_key-named :
    (c : ℕ) (id : Text) (r : QuoteRequest)
    → r.client_id ≡ c ∷ id
    → scoped_key r ≡ c ∷ (id ++ (bytes ":" ++ r.request_id))
unfolding scoped_key
scoped_key-named c id r e = rw (e, scoped_key) refl

cache_key-append :
    (key : Text) (body : Body)
    → 8 < length key
    → cache_key key body ≡ take 8 key ++ (bytes "...:" ++ body.request_id)
unfolding build_domain_request
cache_key-append [] body h = absurd (omega (arith, h))
cache_key-append (b ∷ k) body h =
    scoped_key-named b (take 7 k ++ bytes "...") (build_domain_request body (key_id (b ∷ k)))
      (key_id-long (b ∷ k) h)
    ∙ ap (◌∷◌ b) (append_assoc (take 7 k) (bytes "...") (bytes ":" ++ body.request_id))

-- Two requests with keys of more than eight bytes are served from one cache entry exactly if the keys
-- begin with the same eight bytes and the request ids are the same: the keys may differ.
pub cache_key_iff :
    (key other : Text) (body second : Body)
    → 8 < length key
    → 8 < length other
    → (cache_key key body ≡ cache_key other second)
      ↔ ((take 8 key ≡ take 8 other) × (body.request_id ≡ second.request_id))
cache_key_iff key other body second h g = (
  (λ e.
      let (same, rest) =
        append_inj (take 8 key) (take 8 other) (bytes "...:" ++ body.request_id)
          (bytes "...:" ++ second.request_id) (length-take 8 key h ∙ sym (length-take 8 other g))
          (sym (cache_key-append key body h) ∙ e ∙ cache_key-append other second g) in
      (
        same,
        (append_inj (bytes "...:") (bytes "...:") body.request_id second.request_id refl rest).1,
      )),
  (λ e.
      cache_key-append key body h
      ∙ ap₂ (λ p r. p ++ (bytes "...:" ++ r)) e.0 e.1
      ∙ sym (cache_key-append other second g)),
)
