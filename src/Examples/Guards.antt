-- ===== src/Examples/Guards.antt =====
-- The middleware and the mock carriers at concrete inputs.
use carrier_gateway.Prelude.{
  ℕ, zero, suc, ap, ◌∙◌, ◌-◌, ◌*◌, ◌≤◌, ltb, ◌≡◌, refl, pos, pos_part, Text, bytes, text_eq, true,
  none, List, [], ◌∷◌, replicate, arith,
}
use carrier_gateway.Prelude.Maps.{lookup, member}
use carrier_gateway.Prelude.Parts.{split}
use carrier_gateway.Limiter.{TokenBucket}
use carrier_gateway.Middleware.{Request, HttpHandler, write_header, write}
use carrier_gateway.Middleware.Address.{client_ip, split_host}
use carrier_gateway.Middleware.Auth.{Guarded, has_token, require_api_key}
use carrier_gateway.Middleware.Grants.{Carries, IsTurnedAway, require_api_key-denied}
use carrier_gateway.Middleware.Brute.{
  empty_writer, HoldsTen, IsAttempt, IsLocked, serve_each, serve_each-IsLocked, spent,
}
use carrier_gateway.Middleware.Slots.{run}
use carrier_gateway.Middleware.Capacity.{IsCounted, start, run-start-IsCounted}
use carrier_gateway.Examples.{fixed_point}

-- Buckets that are not refilled; the world counts the requests that the handler got.
abbrev bucket : TokenBucket ℕ ℕ ℕ
bucket = record {
  new_bucket = λ rate burst. pos_part burst;
  wait = λ ctx b w. (b - 1, w, none);
  allow = λ b w. (b - 1, true);
  tokens = λ b w. b * 1000;
}

abbrev count_requests : HttpHandler ℕ
count_requests r w n = (write (bytes "ok") (write_header (pos 200) w), suc n)

abbrev keys : List Text
keys = bytes "test-key-12345678" ∷ bytes "other-key" ∷ []

abbrev skip : List Text
skip = bytes "/healthz" ∷ []

abbrev request : Text → Request
request authorization = record {
  method = bytes "POST";
  path = bytes "/quotes";
  remote_addr = bytes "10.0.0.1:12345";
  authorization = authorization;
  body = [];
  client_id = none;
}

abbrev fresh : Guarded ℕ ℕ
fresh = record { ips = []; rest = 0 }

abbrev bad : Request
bad = request (bytes "Basic abc123")

-- No key follows another word than Bearer.
bad-Carries : (k : Text) → ¬ Carries keys bad.authorization k
bad-Carries k h = absurd (ground (arith, h.0))

require_api_key-denied_example :
    IsTurnedAway fixed_point bucket keys skip count_requests empty_writer fresh
      (require_api_key fixed_point bucket keys skip count_requests bad empty_writer fresh)
unfolding member text_eq
require_api_key-denied_example =
    require_api_key-denied fixed_point bucket keys skip count_requests bad empty_writer fresh refl
      bad-Carries

spent-bucket : (w n : ℕ) → spent fixed_point bucket w n ≡ 10 - n
spent-bucket w zero = refl
spent-bucket w (suc n) = omega (arith, spent-bucket w n)

bucket-HoldsTen : HoldsTen fixed_point bucket
bucket-HoldsTen w n h = ap (λ b. has_token fixed_point bucket b w) (spent-bucket w n) ∙ left n h
  where
    left : (n : ℕ) → n ≤ 10 → has_token fixed_point bucket (10 - n) 0 ≡ ltb n 10
    left n h = ground arith

bad-IsAttempt : IsAttempt fixed_point bucket keys skip count_requests (bytes "10.0.0.1") bad
unfolding member text_eq client_ip split_host split
bad-IsAttempt = ((refl, refl), bad-Carries)

serve_each-IsLocked_example :
    IsLocked fixed_point bucket keys skip count_requests
      (bytes "10.0.0.1")
      (serve_each fixed_point bucket keys skip count_requests (replicate 10 bad) fresh)
unfolding lookup
serve_each-IsLocked_example =
    serve_each-IsLocked fixed_point bucket keys skip count_requests (bytes "10.0.0.1")
      (replicate 10 bad) fresh bucket-HoldsTen refl
      (
        bad-IsAttempt,
        (
          bad-IsAttempt,
          (
            bad-IsAttempt,
            (
              bad-IsAttempt,
              (
                bad-IsAttempt,
                (
                  bad-IsAttempt,
                  (bad-IsAttempt, (bad-IsAttempt, (bad-IsAttempt, (bad-IsAttempt, tt)))),
                ),
              ),
            ),
          ),
        ),
      )
      refl

-- Of three requests two get a slot; the third is turned away, and then one of the two returns.
run-start-IsCounted_example : IsCounted 2 (run 2 (0 ∷ 1 ∷ 2 ∷ 0 ∷ []) (start 3))
run-start-IsCounted_example = run-start-IsCounted 2 3 (0 ∷ 1 ∷ 2 ∷ 0 ∷ [])
