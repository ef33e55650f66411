-- ===== src/Command/Timeouts.antt =====
-- main.go: the address that the server listens at, and its timeouts.
use carrier_gateway.Prelude.{
  ℕ, ◌*◌, ◌≤◌, ℤ, pos, ◌+ℤ◌, ◌≤ℤ◌, ◌≡◌, ◌⊎◌, Text, bytes, Option, none, some, [], ◌∷◌, arith,
}
use carrier_gateway.Handler.{Body, validate_quote_request, build_domain_request}
use carrier_gateway.Handler.Validation.{asked_timeout}

-- The fields of http.Server, without the handler.
pub record HttpServer : Type 0 where
  pub addr : Text
  pub read_header_timeout : ℤ
  pub read_timeout : ℤ
  pub write_timeout : ℤ
  pub idle_timeout : ℤ

-- The address, at a value of ADDR and of the flag -addr, if it is given.
unfoldable pub listen_addr : Text → Option Text → Text
listen_addr env (some addr) = addr
listen_addr [] none = bytes ":8080"
listen_addr (b ∷ env) none = b ∷ env

unfoldable pub http_server : Text → Option Text → HttpServer
unfolding listen_addr
http_server env flag = record {
  addr = listen_addr env flag;
  read_header_timeout = pos 10000000000;
  read_timeout = pos 15000000000;
  write_timeout = pos 35000000000;
  idle_timeout = pos 60000000000;
}

-- For a request that passed validation the orchestrator is given the timeout that was sent, or 5s if
-- none was sent: a whole number of milliseconds from 100 to 30000, in nanoseconds that fit int64, which
-- ends at least five seconds before the server's timeout for writing the answer, if both start at once.
pub answered_in_time :
    (env : Text) (flag : Option Text) (req : Body) (client_id : Text)
    → validate_quote_request req ≡ none
    → let asked = (build_domain_request req client_id).timeout in
      (asked +ℤ pos 5000000000 ≤ℤ (http_server env flag).write_timeout)
      × ((n : ℕ) × ((asked ≡ pos (n * 1000000))
            × ((100 ≤ n)
                × ((n ≤ 30000)
                    × ((req.timeout_ms ≡ pos n) ⊎ ((req.timeout_ms ≡ pos 0) × (n ≡ 5000)))))))
unfolding http_server
answered_in_time env flag req client_id h =
    let (n, (e, (low, (high, sent)))) = asked_timeout req client_id h in
    (ground (arith, e, high), (n, (e, (low, (high, sent)))))
