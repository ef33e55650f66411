-- ===== src/Examples/Requests.antt =====
-- Requests at concrete inputs.
use carrier_gateway.Prelude.{
  ℕ, ◌*◌, ◌≤◌, ℤ, pos, ◌+ℤ◌, ◌≤ℤ◌, ◌≡◌, ◌⊎◌, ◌↔◌, refl, bytes, none, List, [], ◌∷◌, arith, inl,
}
use carrier_gateway.Domain.{QuoteRequest, QuoteResult, Result, ok}
use carrier_gateway.Handler.{
  Body, decoded, status_of, validate_quote_request, build_domain_request, handle_post_quotes,
}
use carrier_gateway.Handler.Validation.{IsAcceptable, accepted_iff}
use carrier_gateway.Command.Timeouts.{http_server, answered_in_time}
use carrier_gateway.Handler.Responses.{IsQuoted, success_iff}

abbrev body : Body
body = record { request_id = bytes "r-1"; coverage_lines = bytes "auto" ∷ []; timeout_ms = pos 0 }

accepted_iff_example : (validate_quote_request body ≡ none) ↔ IsAcceptable body
accepted_iff_example = accepted_iff body

is_acceptable : IsAcceptable body
is_acceptable = record {
  id_given = λ e. absurd (ground arith);
  id_fits = omega arith;
  id_printable = ground arith;
  lines_given = λ e. absurd (ground arith);
  lines_known = (inl refl, tt);
  timeout_allowed = inl refl;
}

answered_in_time_example :
    let asked = (build_domain_request body []).timeout in
    (asked +ℤ pos 5000000000 ≤ℤ (http_server [] none).write_timeout)
    × ((n : ℕ) × ((asked ≡ pos (n * 1000000))
          × ((100 ≤ n) × ((n ≤ 30000) × ((pos 0 ≡ pos n) ⊎ ((pos 0 ≡ pos 0) × (n ≡ 5000)))))))
answered_in_time_example = answered_in_time [] none body [] ((accepted_iff body).1 is_acceptable)

-- An orchestrator that takes a millisecond and finds nothing.
abbrev no_quotes : QuoteRequest → ℤ → ℤ × Result (List QuoteResult)
no_quotes req w = (w +ℤ pos 1000000, ok [])

success_iff_example :
    (status_of (handle_post_quotes (λ w. w) no_quotes (decoded body) [] (pos 7)).1 ≡ 200)
    ↔ IsQuoted no_quotes (decoded body) [] (pos 7)
success_iff_example = success_iff (λ w. w) no_quotes (decoded body) [] (pos 7)
