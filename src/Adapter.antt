-- ===== src/Adapter.antt =====
-- internal/adapter/adapter.go: the pipeline that Register composes, and the registry.
pub mod Http
pub mod Attempts
pub mod Refusals
pub mod Mock
pub mod Delta
pub mod Premiums
use carrier_gateway.Prelude.{
  ℕ, zero, suc, ◌+◌, ℤ, pos, ◌+ℤ◌, ◌*ℤ◌, pos_part, leb_int, ltb_int, to_int64, Text, bytes, Bool,
  true, false, ◌&&◌, Option, none, some, List, [], if◌then◌else◌,
}
use carrier_gateway.Prelude.Maps.{lookup, insert}
use carrier_gateway.Domain.{
  Context, QuoteRequest, QuoteResult, Error, sentinel, opaque, wrap, Sentinel, Result, ok, err,
}
use carrier_gateway.Orchestrator.State.{AdapterFunc}

-- `Adapter[Req, Resp]` and the carrier that it talks to.
pub record Adapter (Req Resp W : Type 0) : Type 0 where
  pub to_carrier_request : Context W → QuoteRequest → W → W × Result Req
  pub from_carrier_response : Context W → Resp → Text → W → W × Result QuoteResult

module _ {Req Resp W : Type 0} (a : Adapter Req Resp W)
    (carrier_call : Context W → Req → W → W × Result Resp) (carrier_id : Text) where
  unfoldable pub convert_back : Context W → W × Result Resp → W × Result QuoteResult
  convert_back ctx (w, err e) = (w, err e)
  convert_back ctx (w, ok resp) = a.from_carrier_response ctx resp carrier_id w

  unfoldable pub call_native : Context W → W × Result Req → W × Result QuoteResult
  unfolding convert_back
  call_native ctx (w, err e) = (w, err e)
  call_native ctx (w, ok req) = convert_back ctx (carrier_call ctx req w)

  -- `Register`
  unfoldable pub register : AdapterFunc W
  unfolding call_native
  register ctx req w = call_native ctx (a.to_carrier_request ctx req w)

-- `Registry`, which starts empty; `Register` and `Get`.
abbrev pub Registry : Type 0 → Type 0
Registry W = List (Text × AdapterFunc W)

abbrev pub new_registry : {W : Type 0} → Registry W
new_registry = []

abbrev pub register_adapter : {W : Type 0} → Text → AdapterFunc W → Registry W → Registry W
register_adapter = insert

abbrev pub get_adapter : {W : Type 0} → Text → Registry W → Option (AdapterFunc W)
get_adapter = lookup
