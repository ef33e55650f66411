-- ===== src/Examples/Servers.antt =====
-- The server and the recorder of main.go at concrete inputs: the world counts the calls of the
-- orchestrator.
use carrier_gateway.Prelude.{
  ℕ, suc, ℤ, ◌-◌, ◌*◌, ◌≡◌, pos, pos_part, Text, bytes, is_empty, true, false, Option, none, List,
  [], ◌∷◌, arith, if◌then◌else◌,
}
use carrier_gateway.Domain.{QuoteRequest, QuoteResult, Result, ok}
use carrier_gateway.Limiter.{TokenBucket}
use carrier_gateway.Handler.{malformed, decoded, status_of}
use carrier_gateway.Handler.Mux.{Backend}
use carrier_gateway.Middleware.{Request, Writer}
use carrier_gateway.Middleware.Auth.{Guarded}
use carrier_gateway.Middleware.Slots.{Limited}
use carrier_gateway.Middleware.Headers.{HasHeaders, security}
use carrier_gateway.Middleware.Brute.{empty_writer}
use carrier_gateway.Command.Server.{server, server-other, server-HasHeaders}
use carrier_gateway.Examples.{fixed_point}

abbrev bucket : TokenBucket ℕ ℕ (Limited ℕ)
bucket = record {
  new_bucket = λ rate burst. pos_part burst;
  wait = λ ctx b w. (b - 1, w, none);
  allow = λ b w. (b - 1, true);
  tokens = λ b w. b * 1000;
}

abbrev backend : Backend ℕ
backend = record {
  now = λ n. pos 0;
  decode = λ body.
      if is_empty body
      then malformed
      else decoded
          (record { request_id = body; coverage_lines = bytes "auto" ∷ []; timeout_ms = pos 0 });
  encode = λ response. status_of response ∷ [];
  ping = none;
  metrics_page = λ r w n. (w, n);
}

abbrev redirect : Text → Text → Option (Writer → Writer)
redirect method path = none

abbrev keys : List Text
keys = bytes "test-key-12345678" ∷ []

abbrev now : Guarded ℕ (Limited ℕ) → ℤ
now s = pos 0

abbrev idle : Guarded ℕ (Limited ℕ)
idle = record { ips = []; rest = record { in_flight = 0; rest = 0 } }

-- An orchestrator without quotes, and one that is never asked in vain.
abbrev empty_handed : QuoteRequest → ℕ → ℕ × Result (List QuoteResult)
empty_handed req n = (suc n, ok [])

abbrev quoting : QuoteRequest → ℕ → ℕ × Result (List QuoteResult)
quoting req n = (
  suc n,
  ok (
      record {
        request_id = req.request_id;
        carrier_id = bytes "alpha";
        premium = record { amount = pos 100; currency = bytes "USD" };
        expires_at = pos 0;
        carrier_ref = [];
        latency = pos 0;
        is_hedged = false;
      }
      ∷ []),
)

abbrev post_quotes : Text → Request
post_quotes authorization = record {
  method = bytes "POST";
  path = bytes "/quotes";
  remote_addr = bytes "10.0.0.1:12345";
  authorization = authorization;
  body = bytes "req-1";
  client_id = none;
}

abbrev good : Request
good = post_quotes (bytes "Bearer test-key-12345678")

-- A key that is not in the list: the answer is that of any orchestrator.
server-other_example :
    server fixed_point bucket backend redirect now
      (λ e s. s)
      keys
      100
      quoting
      (post_quotes (bytes "Basic abc123"))
      empty_writer
      idle
    ≡ server fixed_point bucket backend redirect now
        (λ e s. s)
        keys
        100
        empty_handed
        (post_quotes (bytes "Basic abc123"))
        empty_writer
        idle
server-other_example =
    server-other fixed_point bucket backend redirect now (λ e s. s) keys 100 quoting empty_handed
      (post_quotes (bytes "Basic abc123")) empty_writer idle (λ h. absurd (ground (arith, h.1.1.0)))

server-HasHeaders_example :
    HasHeaders security
      (server fixed_point bucket backend redirect now
        (λ e s. s)
        keys
        100
        quoting
        good
        empty_writer
        idle).0
server-HasHeaders_example =
    server-HasHeaders fixed_point bucket backend redirect now (λ e s. s) keys 100 quoting good
      empty_writer idle (λ r w s h. h) (λ method path to e v h. absurd (ground arith))
