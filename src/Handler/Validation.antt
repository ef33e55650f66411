-- ===== src/Handler/Validation.antt =====
-- http.go: exactly which requests pass validation, and what the orchestrator is then asked.
use carrier_gateway.Prelude.{
  ℕ, zero, suc, ◌*◌, ◌≤◌, ℤ, pos, negsuc, ◌≤ℤ◌, ltb, length, Text, text_eq, text_eq_iff, ◌≡◌, ◌≢◌,
  ◌↔◌, ◌⊎◌, refl, true, false, ◌||◌, none, List, [], ◌∷◌, All, arith, Bool-cases, Option-cases, inl,
  inr, to_int64-pos, is_empty, if◌then◌else◌, to_int64, ◌*ℤ◌, leb_int,
}
use carrier_gateway.Domain.{coverage_line_auto, coverage_line_homeowners, coverage_line_umbrella}
use carrier_gateway.Handler.Runes.{runes, decode_ascii, decode_high}
use carrier_gateway.Handler.{
  Body, is_valid_coverage_line, has_bad_rune, first_unknown, validate_timeout, validate_lines,
  validate_quote_request, build_domain_request, default_timeout_ms,
}

-- A byte of printable ASCII.
abbrev pub IsPrintable : ℕ → Type 0
IsPrintable c = (0x20 ≤ c) × (c ≤ 0x7E)

-- One of the three lines of business.
abbrev pub IsKnownLine : Text → Type 0
IsKnownLine l =
    (l ≡ coverage_line_auto) ⊎ ((l ≡ coverage_line_homeowners) ⊎ (l ≡ coverage_line_umbrella))

-- What a client has to send.
pub record IsAcceptable (req : Body) : Type 0 where
  pub id_given : req.request_id ≢ []
  pub id_fits : length req.request_id ≤ 256
  pub id_printable : All IsPrintable req.request_id
  pub lines_given : req.coverage_lines ≢ []
  pub lines_known : All IsKnownLine req.coverage_lines
  pub timeout_allowed :
      (req.timeout_ms ≡ pos 0) ⊎ ((pos 100 ≤ℤ req.timeout_ms) × (req.timeout_ms ≤ℤ pos 30000))

runes_printable : (s : Text) → All IsPrintable s → has_bad_rune (runes 0 s) ≡ false
unfolding runes has_bad_rune
runes_printable [] h = refl
runes_printable (b ∷ s) h =
    rw (decode_ascii b s (omega arith), runes) (ground (arith, runes_printable s h.1))

IsPrintable-runes : (s : Text) → has_bad_rune (runes 0 s) ≡ false → All IsPrintable s
unfolding runes has_bad_rune
IsPrintable-runes [] h = tt
IsPrintable-runes (b ∷ s) h = elim (Bool-cases (ltb b 0x80)) [
  | inl low ↦
      let e = decode_ascii b s (ground arith) in
      let h' : has_bad_rune (b ∷ runes 0 s) ≡ false = rw (e, runes) at h in
      (ground arith, IsPrintable-runes s (ground arith))
  | inr high ↦ let k = decode_high b s (ground arith) in absurd (ground arith)
]

one_of_three :
    (l a b c : Text)
    → (text_eq l a || (text_eq l b || text_eq l c)) ≡ true ↔ ((l ≡ a) ⊎ ((l ≡ b) ⊎ (l ≡ c)))
one_of_three l a b c = ground (arith, text_eq_iff l a, text_eq_iff l b, text_eq_iff l c)

known_line : (l : Text) → (is_valid_coverage_line l ≡ true) ↔ IsKnownLine l
unfolding is_valid_coverage_line
known_line l = one_of_three l coverage_line_auto coverage_line_homeowners coverage_line_umbrella

lines_known : (ls : List Text) → first_unknown ls ≡ none → All IsKnownLine ls
unfolding first_unknown
lines_known [] h = tt
lines_known (l ∷ ls) h = elim (Bool-cases (is_valid_coverage_line l)) [
  | inl e ↦ ((known_line l).0 e, lines_known ls (ground arith))
  | inr e ↦ absurd (ground arith)
]

known_lines : (ls : List Text) → All IsKnownLine ls → first_unknown ls ≡ none
unfolding first_unknown
known_lines [] h = refl
known_lines (l ∷ ls) h = rw ((known_line l).1 h.0) (known_lines ls h.1)

timeout_checked :
    (t : ℤ) → (validate_timeout t ≡ none) ↔ ((t ≡ pos 0) ⊎ ((pos 100 ≤ℤ t) × (t ≤ℤ pos 30000)))
unfolding validate_timeout
timeout_checked (pos n) = ground arith
timeout_checked (negsuc n) = ground arith

lines_checked :
    (ls : List Text) (t : ℤ)
    → (validate_lines ls t ≡ none)
      ↔ ((ls ≢ []) × ((first_unknown ls ≡ none) × (validate_timeout t ≡ none)))
unfolding validate_lines
lines_checked [] t = ground arith
lines_checked (l ∷ ls) t = elim (Option-cases (first_unknown (l ∷ ls))) [
  | inl e ↦ rw (e, validate_lines) (λ h. ((λ q. absurd (ground arith)), (refl, h)), λ h. h.1.1)
  | inr (k, e) ↦ rw (e, validate_lines) (ground arith)
]

not_empty : (s : Text) → s ≢ [] → is_empty s ≡ false
not_empty [] h = absurd (h refl)
not_empty (c ∷ s) h = refl

given_back : (s : Text) → is_empty s ≡ false → s ≢ []
given_back [] h e = absurd (ground arith)
given_back (c ∷ s) h e = absurd (ground arith)

-- A request passes validation exactly if its id is 1 to 256 bytes of printable ASCII, it names at
-- least one coverage line and only known ones, and its timeout is absent, 0, or from 100ms to
-- 30s.
pub accepted_iff : (req : Body) → (validate_quote_request req ≡ none) ↔ IsAcceptable req
unfolding validate_quote_request
accepted_iff req = (
  λ h.
      let given : is_empty req.request_id ≡ false = ground arith in
      let short : length req.request_id ≤ 256 = ground arith in
      let good : has_bad_rune (runes 0 req.request_id) ≡ false = ground arith in
      let lines : validate_lines req.coverage_lines req.timeout_ms ≡ none = ground arith in
      let (l, (k, t)) = (lines_checked req.coverage_lines req.timeout_ms).0 lines in
      record {
        id_given = given_back req.request_id given;
        id_fits = short;
        id_printable = IsPrintable-runes req.request_id good;
        lines_given = l;
        lines_known = lines_known req.coverage_lines k;
        timeout_allowed = (timeout_checked req.timeout_ms).0 t;
      },
  λ h.
      rw
        (
          not_empty req.request_id h.id_given,
          runes_printable req.request_id h.id_printable,
          (lines_checked req.coverage_lines req.timeout_ms).1 (
            h.lines_given,
            (
              known_lines req.coverage_lines h.lines_known,
              (timeout_checked req.timeout_ms).1 h.timeout_allowed,
            ),
          ),
        )
        (ground arith),
)

-- The milliseconds the orchestrator is given for a timeout field.
asked_for :
    (t : ℤ)
    → ((t ≡ pos 0) ⊎ ((pos 100 ≤ℤ t) × (t ≤ℤ pos 30000)))
    → (n : ℕ) × ((to_int64 ((if leb_int t (pos 0) then default_timeout_ms else t) *ℤ pos 1000000)
          ≡ pos (n * 1000000))
        × ((100 ≤ n) × ((n ≤ 30000) × ((t ≡ pos n) ⊎ ((t ≡ pos 0) × (n ≡ 5000))))))
asked_for (negsuc n) h = absurd (ground arith)
asked_for (pos zero) h =
    (5000, (to_int64-pos 5000000000 (omega arith), (omega arith, (omega arith, inr (refl, refl)))))
asked_for (pos (suc n)) h =
    let (low, high) : (100 ≤ suc n) × (suc n ≤ 30000) = ground arith in
    (suc n, (ground (arith, to_int64-pos (suc n * 1000000)), (low, (high, inl refl))))

-- For a request that passed validation the orchestrator is given the timeout that was sent, or 5s if
-- none was sent: a whole number of milliseconds from 100 to 30000, in nanoseconds that fit int64.
pub asked_timeout :
    (req : Body) (client_id : Text)
    → (validate_quote_request req ≡ none)
    → (n : ℕ) × (((build_domain_request req client_id).timeout ≡ pos (n * 1000000))
        × ((100 ≤ n)
            × ((n ≤ 30000) × ((req.timeout_ms ≡ pos n) ⊎ ((req.timeout_ms ≡ pos 0) × (n ≡ 5000))))))
unfolding build_domain_request
asked_timeout req client_id h = asked_for req.timeout_ms ((accepted_iff req).0 h).timeout_allowed
