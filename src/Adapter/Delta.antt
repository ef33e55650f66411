-- ===== src/Adapter/Delta.antt =====
-- internal/adapter/delta_carrier.go: the types of Delta Insurance, their conversions, and the carrier
-- that is reached by HTTP, as an adapter function.
use carrier_gateway.Prelude.{
  ℤ, pos, ◌+ℤ◌, ◌*ℤ◌, leb_int, to_int64, Text, bytes, false, Option, List, [], if◌then◌else◌,
}
use carrier_gateway.Domain.{Context, Error, Result, ok}
use carrier_gateway.Orchestrator.State.{AdapterFunc}
use carrier_gateway.Adapter.{Adapter, register}
use carrier_gateway.Adapter.Http.{
  HttpCarrierConfig, with_defaults, endpoint, request_headers, Wire, Clock, http_client, post,
}

pub record DeltaRequest : Type 0 where
  pub request_id : Text
  pub lines : List Text

pub record DeltaResponse : Type 0 where
  pub quote_id : Text
  pub premium_cents : ℤ
  pub valid_for_seconds : ℤ

-- How long a quote is valid, in nanoseconds: five minutes unless a positive time is given.
unfoldable pub valid_for : DeltaResponse → ℤ
valid_for r =
    let d = to_int64 (r.valid_for_seconds *ℤ pos 1000000000) in
    if leb_int d (pos 0) then pos 300000000000 else d

unfoldable pub delta_adapter : {W : Type 0} → (W → ℤ) → Adapter DeltaRequest DeltaResponse W
unfolding valid_for
delta_adapter now = record {
  to_carrier_request =
      λ ctx q w. (w, ok (record { request_id = q.request_id; lines = q.coverage_lines }));
  from_carrier_response = λ ctx r id w. (
    w,
    ok (record {
      request_id = [];
      carrier_id = id;
      premium = record { amount = r.premium_cents; currency = bytes "USD" };
      expires_at = now w +ℤ valid_for r;
      carrier_ref = r.quote_id;
      latency = pos 0;
      is_hedged = false;
    }),
  );
}

-- A carrier: its id and its configuration, with the defaults put in.
pub record HttpCarrier : Type 0 where
  pub id : Text
  pub cfg : HttpCarrierConfig

unfoldable pub new_http_carrier : Text → HttpCarrierConfig → HttpCarrier
unfolding with_defaults
new_http_carrier id cfg = record { id = id; cfg = with_defaults cfg }

abbrev pub new_delta_carrier : HttpCarrierConfig → HttpCarrier
new_delta_carrier = new_http_carrier (bytes "delta")

-- What the carrier talks to: `json.Marshal` of a request, the exchanges of an encoded one with a URL
-- and headers, and the timer.
pub record Service (R W : Type 0) : Type 0 where
  pub encode : DeltaRequest → Option Error
  pub wire : Text → List (Text × Text) → DeltaRequest → Wire DeltaResponse R W
  pub clock : Clock W

-- The response that Call starts with.
abbrev pub zero_response : DeltaResponse
zero_response = record { quote_id = []; premium_cents = pos 0; valid_for_seconds = pos 0 }

module _ {R W : Type 0} (service : Service R W) where
  -- `deltaHTTPClient.Call`
  unfoldable pub delta_call : HttpCarrier → Context W → DeltaRequest → W → W × Result DeltaResponse
  unfolding post endpoint request_headers
  delta_call carrier ctx req w =
      let url = endpoint carrier.cfg.base_url (bytes "/v1/quotes") in
      let wire = service.wire url (request_headers carrier.cfg.api_key) req in
      post (http_client wire service.clock) carrier.cfg ctx (service.encode req) zero_response w

  -- `RegisterDeltaCarrier`
  unfoldable pub register_delta_carrier : (W → ℤ) → HttpCarrier → AdapterFunc W
  unfolding delta_call
  register_delta_carrier now carrier =
      register (delta_adapter now) (delta_call carrier) (bytes "delta")
