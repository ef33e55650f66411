-- ===== src/Handler/Responses.antt =====
-- http.go: how handlePostQuotes answers, over everything the orchestrator may return.
use carrier_gateway.Prelude.{
  ℤ, ◌-ℤ◌, ◌≡◌, ◌≢◌, ◌↔◌, refl, Text, none, some, List, [], ◌∷◌, arith, Bool-cases, Option-cases,
  inl, inr, sym, ◌∙◌,
}
use carrier_gateway.Domain.{QuoteRequest, QuoteResult, Result, ok, err, error_is, carrier_timeout}
use carrier_gateway.Handler.Validation.{IsAcceptable, accepted_iff}
use carrier_gateway.Handler.{
  Body, Decoded, too_large, malformed, decoded, status_of, validate_quote_request,
  build_domain_request, handle_orch_error, respond, serve_valid, handle_post_quotes,
}

some≢none : {A : Type 0} {a : A} → some a ≢ none
some≢none h = absurd (ground arith)

-- A body that the decoder reads as an acceptable request.
abbrev pub IsServed : Decoded → Type 0
IsServed too_large = ⊥
IsServed malformed = ⊥
IsServed (decoded req) = IsAcceptable req

-- A result with at least one quote.
abbrev pub HasQuotes : Result (List QuoteResult) → Type 0
HasQuotes r = (q : QuoteResult) × ((qs : List QuoteResult) × (r ≡ ok (q ∷ qs)))

-- An acceptable request for which the orchestrator finds a quote.
abbrev pub IsQuoted :
    {W : Type 0} → (QuoteRequest → W → W × Result (List QuoteResult)) → Decoded → Text → W → Type 0
IsQuoted get_quotes too_large client_id w = ⊥
IsQuoted get_quotes malformed client_id w = ⊥
IsQuoted get_quotes (decoded req) client_id w =
    IsAcceptable req × HasQuotes (get_quotes (build_domain_request req client_id) w).1

respond-ok :
    (id : Text) (dur : ℤ) (r : Result (List QuoteResult))
    → (status_of (respond id dur r) ≡ 200) ↔ HasQuotes r
unfolding respond handle_orch_error
respond-ok id dur (err e) = elim (Bool-cases (error_is e carrier_timeout)) [
  | inl t ↦ rw (t, handle_orch_error) (ground arith)
  | inr t ↦ rw (t, handle_orch_error) (ground arith)
]
respond-ok id dur (ok []) = ground arith
respond-ok id dur (ok (q ∷ qs)) = (λ h. (q, (qs, refl)), λ h. refl)

respond-not_400 :
    (id : Text) (dur : ℤ) (r : Result (List QuoteResult)) → status_of (respond id dur r) ≢ 400
unfolding respond handle_orch_error
respond-not_400 id dur (err e) = elim (Bool-cases (error_is e carrier_timeout)) [
  | inl t ↦ rw (t, handle_orch_error) (ground arith)
  | inr t ↦ rw (t, handle_orch_error) (ground arith)
]
respond-not_400 id dur (ok []) = ground arith
respond-not_400 id dur (ok (q ∷ qs)) = ground arith

module _ {W : Type 0} (now : W → ℤ)
    (get_quotes : QuoteRequest → W → W × Result (List QuoteResult)) where
  -- The length of the call, as it is reported.
  abbrev spent : Body → Text → W → ℤ
  spent req client_id w = now (get_quotes (build_domain_request req client_id) w).0 -ℤ now w

  serve_valid-not_400 :
      (req : Body) (client_id : Text) (w : W)
      → status_of (serve_valid now get_quotes (now w) req client_id w).1 ≢ 400
  unfolding serve_valid
  serve_valid-not_400 req client_id w =
      respond-not_400 req.request_id (spent req client_id w)
        (get_quotes (build_domain_request req client_id) w).1

  serve_valid-ok :
      (req : Body) (client_id : Text) (w : W)
      → (status_of (serve_valid now get_quotes (now w) req client_id w).1 ≡ 200)
        ↔ HasQuotes (get_quotes (build_domain_request req client_id) w).1
  unfolding serve_valid
  serve_valid-ok req client_id w =
      respond-ok req.request_id (spent req client_id w)
        (get_quotes (build_domain_request req client_id) w).1

  -- A request is answered with 400 exactly if its body is no acceptable request.
  pub bad_request_iff :
      (d : Decoded) (client_id : Text) (w : W)
      → (status_of (handle_post_quotes now get_quotes d client_id w).1 ≡ 400) ↔ (¬ (IsServed d))
  unfolding handle_post_quotes
  bad_request_iff too_large client_id w = (λ h s. s, λ h. refl)
  bad_request_iff malformed client_id w = (λ h s. s, λ h. refl)
  bad_request_iff (decoded req) client_id w = elim (Option-cases (validate_quote_request req)) [
    | inl e ↦
        rw (e, handle_post_quotes)
          (λ h s. serve_valid-not_400 req client_id w h, λ h. absurd (h ((accepted_iff req).0 e)))
    | inr (k, e) ↦
        rw (e, handle_post_quotes) (λ h s. some≢none (sym e ∙ (accepted_iff req).1 s), λ h. refl)
  ]

  -- A request that is answered with 400 changes nothing: the orchestrator is not called.
  pub bad_request_changes_nothing :
      (d : Decoded) (client_id : Text) (w : W)
      → (status_of (handle_post_quotes now get_quotes d client_id w).1 ≡ 400)
      → (handle_post_quotes now get_quotes d client_id w).0 ≡ w
  unfolding handle_post_quotes
  bad_request_changes_nothing too_large client_id w h = refl
  bad_request_changes_nothing malformed client_id w h = refl
  bad_request_changes_nothing (decoded req) client_id w h =
      elim (Option-cases (validate_quote_request req)) [
        | inl e ↦ absurd ((bad_request_iff (decoded req) client_id w).0 h ((accepted_iff req).0 e))
        | inr (k, e) ↦ rw (e, handle_post_quotes) refl
      ]

  -- A request is answered with 200 exactly if it is acceptable and the orchestrator, asked for it,
  -- returns at least one quote.
  pub success_iff :
      (d : Decoded) (client_id : Text) (w : W)
      → (status_of (handle_post_quotes now get_quotes d client_id w).1 ≡ 200)
        ↔ IsQuoted get_quotes d client_id w
  unfolding handle_post_quotes
  success_iff too_large client_id w = ground arith
  success_iff malformed client_id w = ground arith
  success_iff (decoded req) client_id w = elim (Option-cases (validate_quote_request req)) [
    | inl e ↦
        rw (e, handle_post_quotes)
          (
            λ h. ((accepted_iff req).0 e, (serve_valid-ok req client_id w).0 h),
            λ h. (serve_valid-ok req client_id w).1 h.1,
          )
    | inr (k, e) ↦
        rw (e, handle_post_quotes)
          (λ h. absurd (ground arith), λ h. absurd (some≢none (sym e ∙ (accepted_iff req).1 h.0)))
  ]
