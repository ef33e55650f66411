-- ===== src/Middleware/Brute.antt =====
-- auth.go: an address that fails ten times at one moment is shut out.
use carrier_gateway.Prelude.{
  ℕ, zero, suc, ◌+◌, ◌≤◌, ◌<◌, ℤ, pos, ltb, lt→ltb, none, ◌≡◌, refl, sym, ap, ◌∙◌, Text, false,
  List, [], ◌∷◌, length, All, arith,
}
use mathlib.Core.Path.{subst}
use carrier_gateway.Prelude.Maps.{member, lookup}
use carrier_gateway.Float.{FloatOps}
use carrier_gateway.Limiter.{TokenBucket}
use carrier_gateway.Middleware.{Request, Writer, HttpHandler}
use carrier_gateway.Middleware.Address.{client_ip}
use carrier_gateway.Middleware.Auth.{
  Guarded, has_token, new_failure_bucket, get_or_create, check, record_failure, reject,
  require_api_key,
}
use carrier_gateway.Middleware.Grants.{Carries, require_api_key-reject, require_api_key-full}
use carrier_gateway.Middleware.Failures.{bucket_of, check-bucket_of, record_failure-bucket_of}

abbrev pub empty_writer : Writer
empty_writer = record { headers = []; codes = []; body = [] }

module _ {F B W : Type 0} (o : FloatOps F) (tb : TokenBucket F B W) where
  -- A bucket of failures after some tokens were taken at one moment.
  abbrev pub spent : W → ℕ → B
  spent w zero = new_failure_bucket o tb
  spent w (suc n) = (tb.allow (spent w n) w).0

  -- A bucket is full at first, and each Allow takes a token while there is one.
  abbrev pub HoldsTen : Type 0
  HoldsTen = (w : W) (n : ℕ) → n ≤ 10 → has_token o tb (spent w n) w ≡ ltb n 10

  -- A response with 429 that leaves the state of the guarded handler.
  abbrev pub IsShutOut : Guarded B W → Writer × Guarded B W → Type 0
  IsShutOut s a = (a.0.codes ≡ pos 429 ∷ []) × (a.1.rest ≡ s.rest)

  module _ (keys skip_paths : List Text) (next : HttpHandler W) where
    abbrev pub serve_one : Request → Guarded B W → Writer × Guarded B W
    serve_one r s = require_api_key o tb keys skip_paths next r empty_writer s

    -- Requests one after the other: the codes of each, and the state they leave.
    unfoldable pub serve_each : List Request → Guarded B W → List (List ℤ) × Guarded B W
    serve_each [] s = ([], s)
    serve_each (r ∷ rs) s =
        let (w, s') = serve_one r s in let (codes, s'') = serve_each rs s' in (w.codes ∷ codes, s'')

    -- A request of the address that is to be checked.
    abbrev pub IsFrom : Text → Request → Type 0
    IsFrom ip r = (member r.path skip_paths ≡ false) × (client_ip r.remote_addr ≡ ip)

    -- One without a key.
    abbrev pub IsAttempt : Text → Request → Type 0
    IsAttempt ip r = IsFrom ip r × ((k : Text) → ¬ Carries keys r.authorization k)

    checked :
        (ip : Text) (n : ℕ) (s : Guarded B W)
        → HoldsTen
        → n ≤ 10
        → bucket_of o tb ip s ≡ spent s.rest n
        → (check o tb ip s).1 ≡ ltb n 10
    unfolding check
    checked ip n s h b e = ap (λ x. has_token o tb x s.rest) e ∙ h s.rest n b

    -- The first ten get 401, and take a token each.
    served_below :
        (ip : Text) (n : ℕ) (r : Request) (s : Guarded B W)
        → HoldsTen
        → n < 10
        → IsAttempt ip r
        → bucket_of o tb ip s ≡ spent s.rest n
        → serve_one r s ≡ reject o tb ip empty_writer (check o tb ip s).0
    served_below ip n r s h b ((p, a), d) e =
        require_api_key-reject o tb keys skip_paths next ip r empty_writer s a p d
          (checked ip n s h (omega arith) e ∙ lt→ltb n 10 b)

    reject-bucket_of :
        (ip : Text) (n : ℕ) (s : Guarded B W)
        → bucket_of o tb ip s ≡ spent s.rest n
        → bucket_of o tb ip (reject o tb ip empty_writer (check o tb ip s).0).1
          ≡ spent s.rest (suc n)
    unfolding check
    reject-bucket_of ip n s e =
        record_failure-bucket_of o tb ip (check o tb ip s).0
        ∙ ap (λ b. (tb.allow b s.rest).0) (check-bucket_of o tb ip s ∙ e)

    -- After that any request of the address gets 429.
    served_after :
        (ip : Text) (r : Request) (s : Guarded B W)
        → HoldsTen
        → IsFrom ip r
        → bucket_of o tb ip s ≡ spent s.rest 10
        → IsShutOut s (serve_one r s)
    unfolding check
    served_after ip r s h (p, a) e =
        subst (IsShutOut s)
          (sym (
            require_api_key-full o tb keys skip_paths next ip r empty_writer s a p
              (checked ip 10 s h (omega arith) e)))
          (refl, refl)

    abbrev pub IsLocked : Text → List (List ℤ) × Guarded B W → Type 0
    IsLocked ip a =
        All (λ codes. codes ≡ pos 401 ∷ []) a.0
        × ((r : Request) → IsFrom ip r → IsShutOut a.1 (serve_one r a.1))

    serve_each-IsLocked_from :
        (ip : Text) (n : ℕ) (rs : List Request) (s : Guarded B W)
        → HoldsTen
        → n + length rs ≡ 10
        → All (IsAttempt ip) rs
        → bucket_of o tb ip s ≡ spent s.rest n
        → IsLocked ip (serve_each rs s)
    unfolding serve_each check record_failure
    serve_each-IsLocked_from ip n [] s h l a e =
        let full : n ≡ 10 = omega (arith, l) in
        (tt, λ r f. served_after ip r s h f (e ∙ ap (spent s.rest) full))
    serve_each-IsLocked_from ip n (r ∷ rs) s h l a e =
        let s' = (reject o tb ip empty_writer (check o tb ip s).0).1 in
        let rest =
          serve_each-IsLocked_from ip (suc n) rs s' h (omega (arith, l)) a.1
            (reject-bucket_of ip n s e) in
        subst (λ x. IsLocked ip (x.0.codes ∷ (serve_each rs x.1).0, (serve_each rs x.1).1))
          (sym (served_below ip n r s h (omega (arith, l)) a.0 e)) ((refl, rest.0), rest.1)

    -- An address that no one has failed from: ten attempts at one moment get 401 each, and then every
    -- request of it that is checked gets 429, with a valid key or not, and does not reach the handler;
    -- where a bucket holds ten tokens.
    pub serve_each-IsLocked :
        (ip : Text) (rs : List Request) (s : Guarded B W)
        → HoldsTen
        → length rs ≡ 10
        → All (IsAttempt ip) rs
        → lookup ip s.ips ≡ none
        → IsLocked ip (serve_each rs s)
    unfolding get_or_create
    serve_each-IsLocked ip rs s h l a e =
        serve_each-IsLocked_from ip 0 rs s h (omega (arith, l)) a
          (rw (e, bucket_of, get_or_create) refl)
