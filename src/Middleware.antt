-- ===== src/Middleware.antt =====
-- internal/middleware: what is around the HTTP handler. A handler gets a request and a response
-- writer, and changes the writer and the state `S` of the process.
pub mod Audit
pub mod Address
pub mod Auth
pub mod Slots
pub mod Grants
pub mod Failures
pub mod Brute
pub mod Capacity
pub mod Headers
pub mod Agreement
pub mod Chain
use carrier_gateway.Prelude.{ℤ, Text, Option, none, List, ◌∷◌, ◌++◌}
use carrier_gateway.Prelude.Maps.{insert}

-- What the code reads of a request; `client_id` is the value of `clientIDKey` in its context.
pub record Request : Type 0 where
  pub method : Text
  pub path : Text
  pub remote_addr : Text
  pub authorization : Text
  pub body : Text
  pub client_id : Option Text

-- The headers that are set, the codes that WriteHeader was called with (the last one first), and
-- what was written.
pub record Writer : Type 0 where
  pub headers : List (Text × Text)
  pub codes : List ℤ
  pub body : Text

abbrev pub HttpHandler : Type 0 → Type 0
HttpHandler S = Request → Writer → S → Writer × S

abbrev pub set_header : Text → Text → Writer → Writer
set_header k v w = record w { headers = insert k v w.headers }

abbrev pub write_header : ℤ → Writer → Writer
write_header code w = record w { codes = code ∷ w.codes }

abbrev pub write : Text → Writer → Writer
write s w = record w { body = w.body ++ s }
