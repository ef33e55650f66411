-- ===== src/Middleware/Audit.antt =====
-- audit.go and security.go.
use carrier_gateway.Prelude.{ℤ, pos, quot, ◌-ℤ◌, Text, bytes, none, some, List, [], ◌∷◌}
use carrier_gateway.Middleware.{Request, Writer, HttpHandler, set_header}

-- `ClientIDFromContext`
unfoldable pub client_id_from_context : Request → Text
client_id_from_context r = elim r.client_id [ none ↦ [] | some id ↦ id ]

-- The status that statusRecorder has seen: the last code, or 200.
abbrev pub recorded_status : List ℤ → ℤ
recorded_status [] = pos 200
recorded_status (code ∷ codes) = code

-- A line of the log, whose duration is printed in milliseconds, as a thousandth of the microseconds.
pub record AuditEntry : Type 0 where
  pub method : Text
  pub path : Text
  pub status : ℤ
  pub microseconds : ℤ
  pub client_id : Text

-- `AuditLog`, on a writer that no one has written to: it is the outermost handler.
unfoldable pub audit_log :
    {S : Type 0} → (S → ℤ) → (AuditEntry → S → S) → HttpHandler S → HttpHandler S
unfolding client_id_from_context
audit_log now log next r w s =
    let (w', s') = next r w s in
    (
      w',
      log
          (record {
            method = r.method;
            path = r.path;
            status = recorded_status w'.codes;
            microseconds = quot (now s' -ℤ now s) 1000;
            client_id = client_id_from_context r;
          })
          s',
    )

unfoldable pub with_security_headers : Writer → Writer
with_security_headers w =
    set_header (bytes "Content-Security-Policy") (bytes "default-src 'none'") (
      set_header (bytes "Cache-Control") (bytes "no-store") (
        set_header (bytes "X-Frame-Options") (bytes "DENY") (
          set_header (bytes "Strict-Transport-Security")
            (bytes "max-age=63072000; includeSubDomains")
            (set_header (bytes "X-Content-Type-Options") (bytes "nosniff") w))))

-- `SecurityHeaders`
unfoldable pub security_headers : {S : Type 0} → HttpHandler S → HttpHandler S
unfolding with_security_headers
security_headers next r w s = next r (with_security_headers w) s
