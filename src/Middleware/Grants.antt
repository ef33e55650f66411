-- ===== src/Middleware/Grants.antt =====
-- auth.go: which Authorization headers carry a key, and what RequireAPIKey does with them.
use carrier_gateway.Prelude.{
  ℕ, pos, ◌≡◌, ◌≢◌, ◌⊎◌, inl, inr, refl, sym, ap, ◌∙◌, Text, text_eq, text_eq_iff, text_eq_refl,
  bytes, is_empty, true, false, ◌||◌, Option, none, some, List, [], ◌∷◌, ◌++◌, length,
  length-append, Bool-cases, Option-cases, if◌then◌else◌, arith,
}
use mathlib.Core.Path.{subst}
use carrier_gateway.Prelude.Maps.{member}
use carrier_gateway.Prelude.Parts.{trim_prefix, trim_prefix-append, trim_prefix-cases}
use carrier_gateway.Float.{FloatOps}
use carrier_gateway.Limiter.{TokenBucket}
use carrier_gateway.Middleware.{Request, Writer, HttpHandler}
use carrier_gateway.Middleware.Address.{client_ip}
use carrier_gateway.Middleware.Auth.{
  Guarded, bearer, key_id, bearer_token, match_from, check, record_failure, pass, reject,
  authenticate, require_api_key, write_too_many_requests,
}

text_eq_sym : (s t : Text) → text_eq s t ≡ text_eq t s
text_eq_sym s t = elim (Bool-cases (text_eq s t)) [
  | inl e ↦ rw (e, (text_eq_iff s t).0 e) (sym (text_eq_refl t))
  | inr e ↦ elim (Bool-cases (text_eq t s)) [
    | inl f ↦ absurd (ground (arith, text_eq_iff s t, text_eq_iff t s))
    | inr f ↦ e ∙ sym f
  ]
]

match_from-member :
    (found : Option Text) (keys : List Text) (token : Text)
    → match_from found keys token ≡ (if member token keys then some token else found)
unfolding match_from member
match_from-member found [] token = refl
match_from-member found (k ∷ keys) token = ground (
  arith,
  text_eq_sym token k,
  text_eq_iff k token,
  match_from-member (if text_eq token k then some k else found) keys token,
)

-- No text is a longer one.
append-text_eq : (b : ℕ) (p t : Text) → text_eq t (b ∷ p ++ t) ≡ false
append-text_eq b p t = elim (Bool-cases (text_eq t (b ∷ p ++ t))) [
  | inl e ↦
      let h : length t ≡ length (b ∷ p ++ t) = ap length ((text_eq_iff t (b ∷ p ++ t)).0 e) in
      absurd (omega (arith, h, length-append p t))
  | inr e ↦ e
]

-- A token that is there after the prefix.
bearer_token-append : (t : Text) → t ≢ [] → bearer_token (bearer ++ t) ≡ some t
unfolding bearer_token
bearer_token-append [] h = absurd (h refl)
bearer_token-append (c ∷ t) h =
    rw (trim_prefix-append bearer (c ∷ t), append-text_eq 66 (bytes "earer ") (c ∷ t), bearer_token)
      refl

token-kept :
    (tok raw t : Text)
    → (if is_empty tok || text_eq tok raw then none else some tok) ≡ some t
    → (tok ≡ t) × ((tok ≢ []) × (text_eq tok raw ≡ false))
token-kept [] raw t h = absurd (ground arith)
token-kept (c ∷ tok) raw t h = elim (Bool-cases (text_eq (c ∷ tok) raw)) [
  | inl e ↦ absurd (ground arith)
  | inr e ↦ (ground arith, ((λ x. absurd (ground arith)), e))
]

bearer_token-some : (raw t : Text) → bearer_token raw ≡ some t → (raw ≡ bearer ++ t) × (t ≢ [])
unfolding bearer_token
bearer_token-some raw t h =
    let (same, (nonempty, differs)) = token-kept (trim_prefix bearer raw) raw t h in
    elim (trim_prefix-cases bearer raw) [
      | inl e ↦ absurd (ground (arith, text_eq_iff (trim_prefix bearer raw) raw))
      | inr e ↦ (e ∙ ap (λ x. bearer ++ x) same, λ x. nonempty (same ∙ x))
    ]

-- The header carries a key of the list.
abbrev pub Carries : List Text → Text → Text → Type 0
Carries keys raw k = (raw ≡ bearer ++ k) × ((k ≢ []) × (member k keys ≡ true))

module _ {F B W : Type 0} (o : FloatOps F) (tb : TokenBucket F B W) (keys skip_paths : List Text)
    (next : HttpHandler W) where
  authenticate-served :
      (k ip : Text) (r : Request) (w : Writer) (s : Guarded B W)
      → Carries keys r.authorization k
      → authenticate o tb keys next ip r w s
        ≡ pass o tb next (record r { client_id = some (key_id k) }) w s
  unfolding authenticate
  authenticate-served k ip r w s (e, (n, m)) =
      rw
        (
          ap bearer_token e ∙ bearer_token-append k n,
          match_from-member none keys k,
          m,
          authenticate,
        )
        refl

  pub authenticate-denied :
      (ip : Text) (r : Request) (w : Writer) (s : Guarded B W)
      → ((k : Text) → ¬ Carries keys r.authorization k)
      → authenticate o tb keys next ip r w s ≡ reject o tb ip w s
  unfolding authenticate
  authenticate-denied ip r w s h = elim (Option-cases (bearer_token r.authorization)) [
    | inl e ↦ rw (e, authenticate) refl
    | inr (t, e) ↦ elim (Bool-cases (member t keys)) [
      | inl m ↦ absurd (
          h t (
            (bearer_token-some r.authorization t e).0,
            ((bearer_token-some r.authorization t e).1, m),
          ))
      | inr m ↦ rw (e, match_from-member none keys t, m, authenticate) refl
    ]
  ]

  -- A request that carries a key, from an address whose bucket has a token, reaches the handler
  -- with the name of the key in its context and nothing else changed, and takes no token.
  pub require_api_key-served :
      (k : Text) (r : Request) (w : Writer) (s : Guarded B W)
      → member r.path skip_paths ≡ false
      → (check o tb (client_ip r.remote_addr) s).1 ≡ true
      → Carries keys r.authorization k
      → require_api_key o tb keys skip_paths next r w s
        ≡ pass o tb next
            (record r { client_id = some (key_id k) })
            w
            (check o tb (client_ip r.remote_addr) s).0
  unfolding require_api_key
  require_api_key-served k r w s p e c =
      rw (p, e, require_api_key)
        (authenticate-served k (client_ip r.remote_addr) r w
          (check o tb (client_ip r.remote_addr) s).0 c)

  rejected_at_own :
      (r : Request) (w : Writer) (s : Guarded B W)
      → member r.path skip_paths ≡ false
      → ((k : Text) → ¬ Carries keys r.authorization k)
      → (check o tb (client_ip r.remote_addr) s).1 ≡ true
      → require_api_key o tb keys skip_paths next r w s
        ≡ reject o tb (client_ip r.remote_addr) w (check o tb (client_ip r.remote_addr) s).0
  unfolding require_api_key
  rejected_at_own r w s p h e =
      rw (p, e, require_api_key)
        (authenticate-denied (client_ip r.remote_addr) r w
          (check o tb (client_ip r.remote_addr) s).0 h)

  -- Without a key, and with one where the address has no token left.
  pub require_api_key-reject :
      (ip : Text) (r : Request) (w : Writer) (s : Guarded B W)
      → client_ip r.remote_addr ≡ ip
      → member r.path skip_paths ≡ false
      → ((k : Text) → ¬ Carries keys r.authorization k)
      → (check o tb ip s).1 ≡ true
      → require_api_key o tb keys skip_paths next r w s ≡ reject o tb ip w (check o tb ip s).0
  require_api_key-reject ip r w s a p h =
      subst
        (λ x.
          (check o tb x s).1 ≡ true
          → require_api_key o tb keys skip_paths next r w s ≡ reject o tb x w (check o tb x s).0)
        a (rejected_at_own r w s p h)

  full_at_own :
      (r : Request) (w : Writer) (s : Guarded B W)
      → member r.path skip_paths ≡ false
      → (check o tb (client_ip r.remote_addr) s).1 ≡ false
      → require_api_key o tb keys skip_paths next r w s
        ≡ (write_too_many_requests w, (check o tb (client_ip r.remote_addr) s).0)
  unfolding require_api_key
  full_at_own r w s p e = rw (p, e, require_api_key) refl

  pub require_api_key-full :
      (ip : Text) (r : Request) (w : Writer) (s : Guarded B W)
      → client_ip r.remote_addr ≡ ip
      → member r.path skip_paths ≡ false
      → (check o tb ip s).1 ≡ false
      → require_api_key o tb keys skip_paths next r w s
        ≡ (write_too_many_requests w, (check o tb ip s).0)
  require_api_key-full ip r w s a p =
      subst
        (λ x.
          (check o tb x s).1 ≡ false
          → require_api_key o tb keys skip_paths next r w s
            ≡ (write_too_many_requests w, (check o tb x s).0))
        a (full_at_own r w s p)

  -- A response of the guard itself: the state of the guarded handler is as before, and the code is
  -- 401 or 429.
  abbrev pub IsTurnedAway : Writer → Guarded B W → Writer × Guarded B W → Type 0
  IsTurnedAway w s a =
      (a.1.rest ≡ s.rest) × ((a.0.codes ≡ pos 401 ∷ w.codes) ⊎ (a.0.codes ≡ pos 429 ∷ w.codes))

  -- A request that carries no key of the list does not reach the handler, unless its path is one that
  -- needs none: the answer is 401 or 429, and the handler's state is unchanged.
  pub require_api_key-denied :
      (r : Request) (w : Writer) (s : Guarded B W)
      → member r.path skip_paths ≡ false
      → ((k : Text) → ¬ Carries keys r.authorization k)
      → IsTurnedAway w s (require_api_key o tb keys skip_paths next r w s)
  unfolding check record_failure
  require_api_key-denied r w s p h = elim (Bool-cases (check o tb (client_ip r.remote_addr) s).1) [
    | inl e ↦
        subst (IsTurnedAway w s)
          (sym (require_api_key-reject (client_ip r.remote_addr) r w s refl p h e)) (refl, inl refl)
    | inr e ↦
        subst (IsTurnedAway w s)
          (sym (require_api_key-full (client_ip r.remote_addr) r w s refl p e)) (refl, inr refl)
  ]
