-- ===== src/Handler/Mux.antt =====
-- http.go: RegisterRoutes, and what the handlers write. http.ServeMux is modelled as far as these
-- routes need it: a path is compared as a whole, and a method that a path has no route for gets 405.
use carrier_gateway.Prelude.{
  ℤ, pos, Text, bytes, text_eq, Bool, ◌&&◌, ◌||◌, Option, none, some, List, [], ◌∷◌, ◌++◌,
  if◌then◌else◌,
}
use carrier_gateway.Domain.{QuoteRequest, QuoteResult, Error, Result}
use carrier_gateway.Middleware.{Request, Writer, HttpHandler, set_header, write_header, write}
use carrier_gateway.Middleware.Audit.{client_id_from_context}
use carrier_gateway.Handler.{Decoded, Response, status_of, handle_post_quotes}

pub record Route (S : Type 0) : Type 0 where
  pub method : Text
  pub path : Text
  pub handler : HttpHandler S

-- A route for GET answers HEAD too.
abbrev pub answers : Text → Text → Bool
answers registered method =
    text_eq registered method || (text_eq registered (bytes "GET") && text_eq method (bytes "HEAD"))

unfoldable pub find_handler : {S : Type 0} → List (Route S) → Request → Option (HttpHandler S)
find_handler [] r = none
find_handler (t ∷ ts) r =
    if text_eq t.path r.path && answers t.method r.method then some t.handler else find_handler ts r

-- The methods of the routes with a path, as the header Allow lists them.
unfoldable pub allowed_methods : {S : Type 0} → List (Route S) → Text → List Text
allowed_methods [] path = []
allowed_methods (t ∷ ts) path =
    let rest = allowed_methods ts path in
    if text_eq t.path path
    then (if text_eq t.method (bytes "GET")
        then bytes "GET" ∷ bytes "HEAD" ∷ rest
        else t.method ∷ rest)
    else rest

abbrev pub allow_list : Text → List Text → Text
allow_list m [] = m
allow_list m (n ∷ ms) = m ++ bytes ", " ++ allow_list n ms

-- `http.Error`
abbrev pub http_error : Text → ℤ → Writer → Writer
http_error message code w = write (message ++ 10 ∷ []) (
    write_header code (
      set_header (bytes "X-Content-Type-Options") (bytes "nosniff")
        (set_header (bytes "Content-Type") (bytes "text/plain; charset=utf-8") w)))

unfoldable pub no_route : List Text → Writer → Writer
no_route [] w = http_error (bytes "404 page not found") (pos 404) w
no_route (m ∷ ms) w =
    http_error (bytes "Method Not Allowed") (pos 405)
      (set_header (bytes "Allow") (allow_list m ms) w)

-- `redirect` is what ServeMux writes for a path that is not clean, such as one with two slashes, unless
-- the method is CONNECT.
unfoldable pub serve_mux :
    {S : Type 0} → (Text → Text → Option (Writer → Writer)) → List (Route S) → HttpHandler S
unfolding find_handler no_route allowed_methods
serve_mux redirect routes r w s = elim (redirect r.method r.path) [
  | some move ↦ (move w, s)
  | none ↦ elim (find_handler routes r) [
    | some handler ↦ handler r w s
    | none ↦ (no_route (allowed_methods routes r.path) w, s)
  ]
]

-- What the handlers call: the clock, encoding/json, `PingContext` of the database, if there is one,
-- and the page of promhttp.
pub record Backend (W : Type 0) : Type 0 where
  pub now : W → ℤ
  pub decode : Text → Decoded
  pub encode : Response → Text
  pub ping : Option (W → W × Option Error)
  pub metrics_page : HttpHandler W

-- The end of handlePostQuotes, and writeErrorBody.
unfoldable pub write_response : (Response → Text) → Response → Writer → Writer
write_response encode response w = write (encode response) (
    write_header (pos (status_of response))
      (set_header (bytes "Content-Type") (bytes "application/json") w))

abbrev pub write_ok : Writer → Writer
write_ok w = write (bytes "ok") (write_header (pos 200) w)

abbrev pub write_unreachable : Writer → Writer
write_unreachable w = write (bytes "db: unreachable") (write_header (pos 503) w)

abbrev pub write_ready : Option Error → Writer → Writer
write_ready none w = write_ok w
write_ready (some e) w = write_unreachable w

module _ {W : Type 0} (b : Backend W) where
  unfoldable pub serve_healthz : HttpHandler W
  serve_healthz r w s = (write_ok w, s)

  -- `handleReadyz`
  unfoldable pub serve_readyz : HttpHandler W
  serve_readyz r w s = elim b.ping [
    | none ↦ (write_ok w, s)
    | some ping ↦ let (s', e) = ping s in (write_ready e w, s')
  ]

  module _ (get_quotes : QuoteRequest → W → W × Result (List QuoteResult)) where
    -- `handlePostQuotes`, from the body that was sent to the one that is written.
    unfoldable pub serve_quotes : HttpHandler W
    unfolding write_response
    serve_quotes r w s =
        let (s', response) =
          handle_post_quotes b.now get_quotes (b.decode r.body) (client_id_from_context r) s in
        (write_response b.encode response w, s')

    -- `RegisterRoutes`
    unfoldable pub routes : List (Route W)
    unfolding serve_quotes serve_healthz serve_readyz
    routes =
        record { method = bytes "POST"; path = bytes "/quotes"; handler = serve_quotes }
        ∷ record { method = bytes "GET"; path = bytes "/metrics"; handler = b.metrics_page }
        ∷ record { method = bytes "GET"; path = bytes "/healthz"; handler = serve_healthz }
        ∷ record { method = bytes "GET"; path = bytes "/readyz"; handler = serve_readyz }
        ∷ []
