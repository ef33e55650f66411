-- ===== src/Examples/Clients.antt =====
-- HTTPCarrier.Post at concrete inputs: the world counts the exchanges.
use carrier_gateway.Prelude.{ℕ, suc, pos, ◌≡◌, refl, none, some, bytes, []}
use carrier_gateway.Domain.{opaque}
use carrier_gateway.Adapter.Http.{HttpCarrierConfig, Client, post, rounds, endpoint}
use carrier_gateway.Adapter.Attempts.{Counts, Fails, post-exhausts}

-- A server that answers every request with 503.
abbrev unavailable : Client ℕ ℕ
unavailable = record {
  do_once = λ ctx out w. (suc w, (pos 503, (out, some (opaque (bytes "status 503")))));
  wait = λ ctx d w. (w, none);
  with_timeout = λ ctx t w. ctx;
}

abbrev config : HttpCarrierConfig
config = record {
  base_url = bytes "https://delta.example/";
  api_key = [];
  max_retries = pos 3;
  retry_delay = pos 100000000;
  timeout = pos 5000000000;
}

unavailable-Counts : Counts unavailable (λ w. w)
unavailable-Counts = record { exchanges = λ ctx out w. refl; waits = λ ctx d w. refl }

unavailable-Fails : Fails unavailable
unavailable-Fails = record {
  retryable = λ ctx out w. (opaque (bytes "status 503"), (out, refl));
  patient = λ ctx d w. refl;
}

post-exhausts_example : (post unavailable config (λ w. none) none 7 0).0 ≡ 4
unfolding rounds
post-exhausts_example =
    post-exhausts unavailable config (λ w. none) (λ w. w) unavailable-Counts 7 0 unavailable-Fails

-- The text of a slash at the end of the base URL is not doubled.
endpoint_test :
    endpoint config.base_url (bytes "/v1/quotes") ≡ bytes "https://delta.example/v1/quotes"
unfolding endpoint
endpoint_test = refl
