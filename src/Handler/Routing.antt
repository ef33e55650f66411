-- ===== src/Handler/Routing.antt =====
-- http.go: which requests of the routes reach the orchestrator, and which headers they leave.
use carrier_gateway.Prelude.{
  some_inj, ℤ, pos, ◌≡◌, ◌↔◌, refl, Text, bytes, text_eq, text_eq_iff, Bool, Bool-cases,
  Option-cases, inl, inr, true, ◌&&◌, Option, none, some, List, [], ◌∷◌, All, arith,
}
use mathlib.Core.Path.{subst}
use carrier_gateway.Domain.{QuoteRequest, QuoteResult, Error, Result}
use carrier_gateway.Middleware.{Request, Writer, HttpHandler, set_header}
use carrier_gateway.Middleware.Headers.{
  HasHeaders, security, LeavesHeaders, json-HasHeaders, nosniff-HasHeaders, set_header-other,
}
use carrier_gateway.Handler.Mux.{
  Backend, Route, answers, allow_list, allowed_methods, find_handler, http_error, no_route,
  serve_mux, write_response, write_ready, serve_healthz, serve_readyz, serve_quotes, routes,
}

-- A request for quotes.
abbrev pub IsQuotes : Request → Type 0
IsQuotes r = (r.path ≡ bytes "/quotes") × (r.method ≡ bytes "POST")

-- The test of the first route.
abbrev pub is_quotes : Request → Bool
is_quotes r = text_eq (bytes "/quotes") r.path && answers (bytes "POST") r.method

not_get : (m : Text) → text_eq (bytes "POST") m ≡ answers (bytes "POST") m
unfolding text_eq
not_get m = ground arith

pub is_quotes_iff : (r : Request) → (is_quotes r ≡ true) ↔ IsQuotes r
is_quotes_iff r = ground (
  arith,
  not_get r.method,
  text_eq_iff (bytes "/quotes") r.path,
  text_eq_iff (bytes "POST") r.method,
)

http_error-HasHeaders :
    (message : Text) (code : ℤ) (w : Writer)
    → HasHeaders security w
    → HasHeaders security (http_error message code w)
unfolding text_eq
http_error-HasHeaders message code w h =
    let plain = set_header (bytes "Content-Type") (bytes "text/plain; charset=utf-8") w in
    nosniff-HasHeaders plain (
      set_header-other (bytes "Content-Type") (bytes "text/plain; charset=utf-8") w
        (refl, (refl, (refl, (refl, (refl, tt))))) h)

no_route-HasHeaders :
    (ms : List Text) (w : Writer) → HasHeaders security w → HasHeaders security (no_route ms w)
unfolding no_route text_eq
no_route-HasHeaders [] w h = http_error-HasHeaders (bytes "404 page not found") (pos 404) w h
no_route-HasHeaders (m ∷ ms) w h =
    http_error-HasHeaders (bytes "Method Not Allowed") (pos 405)
      (set_header (bytes "Allow") (allow_list m ms) w)
      (set_header-other (bytes "Allow") (allow_list m ms) w
        (refl, (refl, (refl, (refl, (refl, tt))))) h)

write_ready-HasHeaders :
    (e : Option Error) (w : Writer) → HasHeaders security w → HasHeaders security (write_ready e w)
write_ready-HasHeaders none w h = h
write_ready-HasHeaders (some e) w h = h

serve_readyz-LeavesHeaders : {W : Type 0} (b : Backend W) → LeavesHeaders (serve_readyz b)
unfolding serve_readyz
serve_readyz-LeavesHeaders b r w s h = elim (Option-cases b.ping) [
  | inl e ↦ rw (e, serve_readyz) h
  | inr (ping, e) ↦ rw (e, serve_readyz) (write_ready-HasHeaders (ping s).1 w h)
]

find_handler-LeavesHeaders :
    {W : Type 0} (ts : List (Route W)) (r : Request) (handler : HttpHandler W)
    → All (λ t. LeavesHeaders t.handler) ts
    → find_handler ts r ≡ some handler
    → LeavesHeaders handler
unfolding find_handler
find_handler-LeavesHeaders [] r handler a e = absurd (ground arith)
find_handler-LeavesHeaders (t ∷ ts) r handler a e =
    elim (Bool-cases (text_eq t.path r.path && answers t.method r.method)) [
      | inl q ↦
          let same : some t.handler ≡ some handler = rw (q, find_handler) at e in
          subst LeavesHeaders (some_inj same) a.0
      | inr q ↦ find_handler-LeavesHeaders ts r handler a.1 (rw (q, find_handler) at e)
    ]

module _ {W : Type 0} (b : Backend W) (redirect : Text → Text → Option (Writer → Writer)) where
  -- Any other request is answered without the orchestrator.
  pub serve_mux-other :
      (f g : QuoteRequest → W → W × Result (List QuoteResult)) (r : Request) (w : Writer) (s : W)
      → ¬ IsQuotes r
      → serve_mux redirect (routes b f) r w s ≡ serve_mux redirect (routes b g) r w s
  unfolding serve_mux routes find_handler
  serve_mux-other f g r w s h = elim (Option-cases (redirect r.method r.path)) [
    | inr (move, e) ↦ rw (e, serve_mux) refl
    | inl e ↦ elim (Bool-cases (is_quotes r)) [
      | inl q ↦ absurd (h ((is_quotes_iff r).0 q))
      | inr q ↦ rw (e, q, serve_mux) refl
    ]
  ]

  pub serve_mux-quotes :
      (f : QuoteRequest → W → W × Result (List QuoteResult)) (r : Request) (w : Writer) (s : W)
      → redirect r.method r.path ≡ none
      → IsQuotes r
      → serve_mux redirect (routes b f) r w s ≡ serve_quotes b f r w s
  unfolding serve_mux routes find_handler
  serve_mux-quotes f r w s e q = rw (e, (is_quotes_iff r).1 q, serve_mux) refl

  module _ (page : LeavesHeaders b.metrics_page)
      (move : (r : Request) (to : Writer → Writer)
        → redirect r.method r.path ≡ some to
        → (w : Writer) → HasHeaders security w
        → HasHeaders security (to w)) where
    module _ (f : QuoteRequest → W → W × Result (List QuoteResult)) where
      -- Each route leaves the headers.
      routes-LeaveHeaders : All (λ t. LeavesHeaders t.handler) (routes b f)
      unfolding routes serve_quotes serve_healthz serve_readyz write_response
      routes-LeaveHeaders = (
        (λ r w s h. json-HasHeaders w h),
        (page, ((λ r w s h. h), (serve_readyz-LeavesHeaders b, tt))),
      )

      pub serve_mux-LeavesHeaders : LeavesHeaders (serve_mux redirect (routes b f))
      unfolding serve_mux
      serve_mux-LeavesHeaders r w s h = elim (Option-cases (redirect r.method r.path)) [
        | inr (to, e) ↦ rw (e, serve_mux) (move r to e w h)
        | inl e ↦ elim (Option-cases (find_handler (routes b f) r)) [
          | inl n ↦
              rw (e, n, serve_mux) (no_route-HasHeaders (allowed_methods (routes b f) r.path) w h)
          | inr (handler, n) ↦
              rw (e, n, serve_mux)
                (find_handler-LeavesHeaders (routes b f) r handler routes-LeaveHeaders n r w s h)
        ]
      ]
