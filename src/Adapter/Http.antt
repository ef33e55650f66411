-- ===== src/Adapter/Http.antt =====
-- internal/adapter/http_carrier.go: HTTPCarrier with Post and doOnce. What net/http and encoding/json
-- do, the timer and the per-attempt context are parameters over the world `W`.
use carrier_gateway.Prelude.{
  ℕ, zero, suc, ℤ, pos, negsuc, ◌*ℤ◌, leb_int, ltb_int, to_int64, Text, bytes, is_empty, Bool, ◌==◌,
  ◌&&◌, Option, none, some, List, [], ◌∷◌, ◌++◌, reverse, if◌then◌else◌,
}
use carrier_gateway.Domain.{Context, Error, sentinel, opaque, wrap, Sentinel, Result, ok, err}

pub record HttpCarrierConfig : Type 0 where
  pub base_url : Text
  pub api_key : Text
  pub max_retries : ℤ
  pub retry_delay : ℤ
  pub timeout : ℤ

unfoldable pub with_defaults : HttpCarrierConfig → HttpCarrierConfig
with_defaults c = record c {
  max_retries = if leb_int c.max_retries (pos 0) then pos 3 else c.max_retries;
  retry_delay = if leb_int c.retry_delay (pos 0) then pos 100000000 else c.retry_delay;
  timeout = if leb_int c.timeout (pos 0) then pos 5000000000 else c.timeout;
}

-- `strings.TrimLeft` and `strings.TrimRight` with one character.
unfoldable pub trim_left : ℕ → Text → Text
trim_left c [] = []
trim_left c (b ∷ s) = if b == c then trim_left c s else b ∷ s

abbrev pub trim_right : ℕ → Text → Text
trim_right c s = reverse (trim_left c (reverse s))

-- The URL of a path.
unfoldable pub endpoint : Text → Text → Text
unfolding trim_left
endpoint base_url path = trim_right b'/' base_url ++ b'/' ∷ trim_left b'/' path

-- The headers of a request.
unfoldable pub request_headers : Text → List (Text × Text)
request_headers api_key =
    (bytes "Content-Type", bytes "application/json")
    ∷ (if is_empty api_key then [] else (bytes "X-API-Key", api_key) ∷ [])

-- A status from 400 to 499.
abbrev pub is_client_error : ℤ → Bool
is_client_error status = leb_int (pos 400) status && ltb_int status (pos 500)

-- What doOnce returns and leaves in `out`: the status, `out` and the error.
abbrev pub Reply : Type 0 → Type 0
Reply A = ℤ × (A × Option Error)

-- What one exchange ends with: no error, one that is not retried, or one that is, which may have
-- changed `out`.
pub data Exchange (A : Type 0) : Type 0 where
  answered : A → Exchange A
  refused : Error → Exchange A
  failed : Error → A → Exchange A

abbrev pub exchange_of : {A : Type 0} → Reply A → Exchange A
exchange_of (status, (out, none)) = answered out
exchange_of (status, (out, some e)) = if is_client_error status then refused e else failed e out

-- `doOnce`, the wait for the timer or the context, and `context.WithTimeout`.
pub record Client (A W : Type 0) : Type 0 where
  pub do_once : Context W → A → W → W × Reply A
  pub wait : Context W → ℤ → W → W × Option Sentinel
  pub with_timeout : Context W → ℤ → W → Context W

-- What one POST needs of net/http and encoding/json: the request is built, sent, and the body of the
-- response, up to 10 MiB of it, decoded into `out`. `describe` is the text of a status and the start of a body.
pub record Wire (A R W : Type 0) : Type 0 where
  pub build : Option Error
  pub send : Context W → W → W × Result R
  pub status_code : R → ℤ
  pub describe : R → Text
  pub decode : R → A → W → W × (A × Option Error)

-- The error of a step that went wrong, with what the step was.
abbrev pub in_step : Text → Option Error → Option Error
in_step step none = none
in_step step (some e) = some (wrap step e)

module _ {A R W : Type 0} (wire : Wire A R W) where
  -- A status from 400 on is an error, whatever the body.
  unfoldable pub read_response : A → W × Result R → W × Reply A
  read_response out (w, err e) = (w, (pos 0, (out, some (wrap (bytes "do request") e))))
  read_response out (w, ok r) =
      if leb_int (pos 400) (wire.status_code r)
      then (w, (wire.status_code r, (out, some (opaque (wire.describe r)))))
      else (let (w', a) = wire.decode r out w in
          (w', (wire.status_code r, (a.0, in_step (bytes "decode response") a.1))))

  -- `doOnce`: the status is 0 where there is no response.
  unfoldable pub do_once : Context W → A → W → W × Reply A
  unfolding read_response
  do_once ctx out w = elim wire.build [
    | some e ↦ (w, (pos 0, (out, some (wrap (bytes "build request") e))))
    | none ↦ read_response out (wire.send ctx w)
  ]

-- The timer, and `context.WithTimeout`.
pub record Clock (W : Type 0) : Type 0 where
  pub wait : Context W → ℤ → W → W × Option Sentinel
  pub with_timeout : Context W → ℤ → W → Context W

-- The exchanges of Post.
abbrev pub http_client : {A R W : Type 0} → Wire A R W → Clock W → Client A W
http_client wire clock = record {
  do_once = do_once wire;
  wait = clock.wait;
  with_timeout = clock.with_timeout;
}

-- What `%w` makes of a nil error.
abbrev pub nil_error : Error
nil_error = opaque (bytes "<nil>")

-- How often a loop from 0 up to `n` runs: not at all for a negative `n`.
unfoldable pub rounds : ℤ → ℕ
rounds (pos n) = suc n
rounds (negsuc n) = 0

module _ {A W : Type 0} (client : Client A W) (cfg : HttpCarrierConfig) (ctx : Context W) where
  -- The wait before an attempt: none before the first.
  unfoldable pub wait_before : ℕ → ℤ → W → W × Option Sentinel
  wait_before zero delay w = (w, none)
  wait_before (suc n) delay w = client.wait ctx delay w

  abbrev pub next_delay : ℕ → ℤ → ℤ
  next_delay zero delay = delay
  next_delay (suc n) delay = to_int64 (delay *ℤ pos 2)

  -- The loop, with `left` attempts to go, of which this is number `attempt`. All of them decode into the
  -- same `out`, which is the result if there is no error.
  unfoldable pub attempts : ℕ → ℕ → ℤ → Error → A → W → W × Result A
  attempts zero attempt delay last out w = (w, err (wrap (bytes "all attempts failed") last))
  attempts (suc left) attempt delay last out w =
      let (w', cancelled) = wait_before attempt delay w in
      elim cancelled [
        | some s ↦ (w', err (wrap (bytes "context cancelled before retry") (sentinel s)))
        | none ↦
            let (w'', reply) = client.do_once (client.with_timeout ctx cfg.timeout w') out w' in
            elim (exchange_of reply) [
              | answered a ↦ (w'', ok a)
              | refused e ↦ (w'', err (wrap (bytes "non-retryable status") e))
              | failed e out' ↦ attempts left (suc attempt) (next_delay attempt delay) e out' w''
            ]
      ]

  -- `Post`: `encoded` is the error of `json.Marshal`, if there is one. If the loop makes no
  -- attempt, the error it starts with is printed.
  unfoldable pub post : Option Error → A → W → W × Result A
  unfolding attempts
  post (some e) out w = (w, err (wrap (bytes "marshal request") e))
  post none out w = attempts (rounds cfg.max_retries) 0 cfg.retry_delay nil_error out w
