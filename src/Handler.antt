-- ===== src/Handler.antt =====
-- internal/handler/http.go: validation, conversion and the handler of POST /quotes. Reading
-- and writing JSON is encoding/json, so a request arrives as what the decoder made of its body, and
-- a response is its status and the value that is encoded.
pub mod Runes
pub mod Validation
pub mod Responses
pub mod Mux
pub mod Routing
use carrier_gateway.Prelude.{
  ℕ, ◌+◌, ◌*◌, ◌≤◌, ℤ, pos, negsuc, ◌-ℤ◌, ◌*ℤ◌, leb_int, ltb_int, quot, to_int64, ltb, leb, ◌==◌,
  length, Text, bytes, text_eq, is_empty, Bool, true, false, ◌&&◌, ◌||◌, not, Option, none, some,
  List, [], ◌∷◌, map, if◌then◌else◌,
}
use carrier_gateway.Domain.{
  QuoteRequest, QuoteResult, Error, Result, ok, err, error_is, carrier_timeout, coverage_line_auto,
  coverage_line_homeowners, coverage_line_umbrella,
}
use Runes.{runes}

abbrev pub default_timeout_ms : ℤ
default_timeout_ms = pos 5000

abbrev pub min_timeout_ms : ℤ
min_timeout_ms = pos 100

abbrev pub max_timeout_ms : ℤ
max_timeout_ms = pos 30000

abbrev pub max_request_id_len : ℕ
max_request_id_len = 256

-- `quoteRequest`, the JSON body.
pub record Body : Type 0 where
  pub request_id : Text
  pub coverage_lines : List Text
  pub timeout_ms : ℤ

-- What is wrong with a request; the handler sends the message that Go formats from it.
pub data Invalid : Type 0 where
  id_required id_too_long id_characters no_lines : Invalid
  unknown_line : Text → Invalid
  negative_timeout short_timeout long_timeout : ℤ → Invalid

unfoldable pub is_valid_coverage_line : Text → Bool
is_valid_coverage_line line =
    text_eq line coverage_line_auto
    || (text_eq line coverage_line_homeowners || text_eq line coverage_line_umbrella)

-- The loop over the runes of the request id.
unfoldable pub has_bad_rune : List ℕ → Bool
has_bad_rune [] = false
has_bad_rune (c ∷ cs) = ltb c 0x20 || (ltb 0x7E c || has_bad_rune cs)

-- The loop over the coverage lines: the first that is unknown.
unfoldable pub first_unknown : List Text → Option Text
first_unknown [] = none
first_unknown (l ∷ ls) = if is_valid_coverage_line l then first_unknown ls else some l

unfoldable pub validate_timeout : ℤ → Option Invalid
validate_timeout t =
    if ltb_int t (pos 0)
    then some (negative_timeout t)
    else if ltb_int (pos 0) t && ltb_int t min_timeout_ms
    then some (short_timeout t)
    else if ltb_int max_timeout_ms t
    then some (long_timeout t)
    else none

abbrev pub has_no_lines : List Text → Bool
has_no_lines [] = true
has_no_lines (l ∷ ls) = false

unfoldable pub validate_lines : List Text → ℤ → Option Invalid
unfolding validate_timeout
validate_lines lines t =
    if has_no_lines lines
    then some no_lines
    else elim (first_unknown lines) [ some l ↦ some (unknown_line l) | none ↦ validate_timeout t ]

-- `validateQuoteRequest`; none is a nil error.
unfoldable pub validate_quote_request : Body → Option Invalid
unfolding validate_lines
validate_quote_request req =
    if is_empty req.request_id
    then some id_required
    else if ltb max_request_id_len (length req.request_id)
    then some id_too_long
    else if has_bad_rune (runes 0 req.request_id)
    then some id_characters
    else validate_lines req.coverage_lines req.timeout_ms

-- A coverage line is a string, so the lines are copied. The client comes from the middleware.
unfoldable pub build_domain_request : Body → Text → QuoteRequest
build_domain_request req client_id =
    let timeout_ms =
      (if leb_int req.timeout_ms (pos 0) then default_timeout_ms else req.timeout_ms) in
    record {
      request_id = req.request_id;
      client_id = client_id;
      coverage_lines = req.coverage_lines;
      timeout = to_int64 (timeout_ms *ℤ pos 1000000);
    }

pub record QuoteItem : Type 0 where
  pub carrier_id : Text
  pub carrier_ref : Text
  pub premium_cents : ℤ
  pub currency : Text
  pub is_hedged : Bool
  pub latency_ms : ℤ

unfoldable pub quote_item : QuoteResult → QuoteItem
quote_item r = record {
  carrier_id = r.carrier_id;
  carrier_ref = r.carrier_ref;
  premium_cents = r.premium.amount;
  currency = r.premium.currency;
  is_hedged = r.is_hedged;
  latency_ms = quot r.latency 1000000;
}

-- The codes of error responses; `internal` is the body "internal error", which has none.
pub data Code : Type 0 where
  request_too_large invalid_json no_eligible_carriers timeout internal : Code
  invalid_request : Invalid → Code

pub data Response : Type 0 where
  quotes : Text → List QuoteItem → ℤ → Response
  error : ℕ → Code → Response

-- The status code that is written.
abbrev pub status_of : Response → ℕ
status_of (quotes id items ms) = 200
status_of (error status code) = status

-- What `dec.Decode` reports of the body.
pub data Decoded : Type 0 where
  too_large malformed : Decoded
  decoded : Body → Decoded

-- `handleOrchError`
unfoldable pub handle_orch_error : Error → Response
handle_orch_error e = if error_is e carrier_timeout then error 504 timeout else error 500 internal

-- The answer to a result of the orchestrator; `duration` is the time since the start.
unfoldable pub respond : Text → ℤ → Result (List QuoteResult) → Response
unfolding handle_orch_error quote_item
respond request_id duration (err e) = handle_orch_error e
respond request_id duration (ok []) = error 422 no_eligible_carriers
respond request_id duration (ok (r ∷ rs)) =
    quotes request_id (map quote_item (r ∷ rs)) (quot duration 1000000)

module _ {W : Type 0} (now : W → ℤ)
    (get_quotes : QuoteRequest → W → W × Result (List QuoteResult)) where
  unfoldable pub serve_valid : ℤ → Body → Text → W → W × Response
  unfolding respond build_domain_request
  serve_valid start req client_id w =
      let (w', r) = get_quotes (build_domain_request req client_id) w in
      (w', respond req.request_id (now w' -ℤ start) r)

  -- `handlePostQuotes`
  unfoldable pub handle_post_quotes : Decoded → Text → W → W × Response
  unfolding serve_valid
  handle_post_quotes too_large client_id w = (w, error 400 request_too_large)
  handle_post_quotes malformed client_id w = (w, error 400 invalid_json)
  handle_post_quotes (decoded req) client_id w = elim (validate_quote_request req) [
    | some why ↦ (w, error 400 (invalid_request why))
    | none ↦ serve_valid (now w) req client_id w
  ]

pub data Level : Type 0 where
  level_info level_warn level_error : Level

-- The level at which `writeError` logs a status.
unfoldable pub error_level : ℕ → Level
error_level status =
    if leb 500 status then level_error else if status == 504 then level_warn else level_info
