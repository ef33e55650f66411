-- ===== src/Middleware/Headers.antt =====
-- The headers of every response, and which writes leave them as they are.
use carrier_gateway.Prelude.{
  ◌≡◌, refl, Text, bytes, text_eq, false, some, List, [], ◌∷◌, All, arith,
}
use carrier_gateway.Prelude.Maps.{lookup, insert, lookup-insert, lookup-insert_self}
use carrier_gateway.Middleware.{Request, Writer, HttpHandler, set_header}
use carrier_gateway.Middleware.Audit.{with_security_headers}

-- The headers of SecurityHeaders, the last one first.
abbrev nosniff : Text × Text
nosniff = (bytes "X-Content-Type-Options", bytes "nosniff")

abbrev transport : Text × Text
transport = (bytes "Strict-Transport-Security", bytes "max-age=63072000; includeSubDomains")

abbrev frame : Text × Text
frame = (bytes "X-Frame-Options", bytes "DENY")

abbrev cache : Text × Text
cache = (bytes "Cache-Control", bytes "no-store")

abbrev content : Text × Text
content = (bytes "Content-Security-Policy", bytes "default-src 'none'")

abbrev pub security : List (Text × Text)
security = content ∷ cache ∷ frame ∷ transport ∷ nosniff ∷ []

abbrev pub HasHeaders : List (Text × Text) → Writer → Type 0
HasHeaders hs w = All (λ h. lookup h.0 w.headers ≡ some h.1) hs

-- A handler that overwrites none of the headers that are set.
abbrev pub LeavesHeaders : {S : Type 0} → HttpHandler S → Type 0
LeavesHeaders next =
    (r : Request) (w : Writer) (s : _) → HasHeaders security w → HasHeaders security (next r w s).0

insert-All :
    (k v : Text) (m : List (Text × Text)) (hs : List (Text × Text))
    → All (λ h. text_eq k h.0 ≡ false) hs
    → All (λ h. lookup h.0 m ≡ some h.1) hs
    → All (λ h. lookup h.0 (insert k v m) ≡ some h.1) hs
insert-All k v m [] d h = tt
insert-All k v m (x ∷ hs) d h =
    (ground (arith, lookup-insert k x.0 v m), insert-All k v m hs d.1 h.1)

set_header-new :
    (k v : Text) (hs : List (Text × Text)) (w : Writer)
    → All (λ h. text_eq k h.0 ≡ false) hs
    → HasHeaders hs w
    → HasHeaders ((k, v) ∷ hs) (set_header k v w)
set_header-new k v hs w d h = (lookup-insert_self k v w.headers, insert-All k v w.headers hs d h)

-- A header of another name.
pub set_header-other :
    (k v : Text) (w : Writer)
    → All (λ h. text_eq k h.0 ≡ false) security
    → HasHeaders security w
    → HasHeaders security (set_header k v w)
set_header-other k v w d h = insert-All k v w.headers security d h

pub with_security_headers-HasHeaders : (w : Writer) → HasHeaders security (with_security_headers w)
unfolding with_security_headers text_eq
with_security_headers-HasHeaders w =
    let set = λ (h : Text × Text) (v : Writer). set_header h.0 h.1 v in
    let w1 = set nosniff w in
    let w2 = set transport w1 in
    let w3 = set frame w2 in
    let h1 = set_header-new nosniff.0 nosniff.1 [] w tt tt in
    let h2 = set_header-new transport.0 transport.1 (nosniff ∷ []) w1 (refl, tt) h1 in
    let h3 = set_header-new frame.0 frame.1 (transport ∷ nosniff ∷ []) w2 (refl, (refl, tt)) h2 in
    let h4 =
      set_header-new cache.0 cache.1 (frame ∷ transport ∷ nosniff ∷ []) w3
        (refl, (refl, (refl, tt))) h3 in
    set_header-new content.0 content.1 (cache ∷ frame ∷ transport ∷ nosniff ∷ []) (set cache w3)
      (refl, (refl, (refl, (refl, tt)))) h4

-- The answers of the guards.
pub json-HasHeaders :
    (w : Writer)
    → HasHeaders security w
    → HasHeaders security (set_header (bytes "Content-Type") (bytes "application/json") w)
unfolding text_eq
json-HasHeaders w h =
    set_header-other (bytes "Content-Type") (bytes "application/json") w
      (refl, (refl, (refl, (refl, (refl, tt))))) h

pub retry-HasHeaders :
    (after : Text) (w : Writer)
    → HasHeaders security w
    → HasHeaders security (set_header (bytes "Retry-After") after w)
unfolding text_eq
retry-HasHeaders after w h =
    set_header-other (bytes "Retry-After") after w (refl, (refl, (refl, (refl, (refl, tt))))) h

-- A header that is set again to the value that it has.
pub nosniff-HasHeaders :
    (w : Writer) → HasHeaders security w → HasHeaders security (set_header nosniff.0 nosniff.1 w)
unfolding text_eq
nosniff-HasHeaders w h =
    let keep =
      λ (x : Text × Text) (d : text_eq nosniff.0 x.0 ≡ false) (e : lookup x.0 w.headers ≡ some x.1).
        insert-All nosniff.0 nosniff.1 w.headers (x ∷ []) (d, tt) (e, tt) in
    (
      (keep content refl h.0).0,
      (
        (keep cache refl h.1.0).0,
        (
          (keep frame refl h.1.1.0).0,
          (
            (keep transport refl h.1.1.1.0).0,
            (lookup-insert_self nosniff.0 nosniff.1 w.headers, tt),
          ),
        ),
      ),
    )
