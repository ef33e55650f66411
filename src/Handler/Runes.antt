-- ===== src/Handler/Runes.antt =====
-- What `for _, c := range s` yields in Go: the runes of a string in UTF-8, with U+FFFD for each byte
-- that begins no valid encoding.
use carrier_gateway.Prelude.{
  within, ℕ, zero, suc, ◌+◌, ◌-◌, ◌*◌, ◌%◌, ◌<◌, ◌≤◌, ◌≡◌, ltb, Text, true, false, ◌&&◌, List, [],
  ◌∷◌, arith, if◌then◌else◌, Bool-cases, inl, inr,
}

abbrev bad_rune : ℕ × ℕ
bad_rune = (0xFFFD, 1)

-- The rune at the first byte, and how many bytes it takes: by the number of bytes that follow.
unfoldable two : ℕ → Text → ℕ × ℕ
two b [] = bad_rune
two b (c ∷ s) = if within 0x80 0xBF c then (b % 32 * 64 + c % 64, 2) else bad_rune

unfoldable three : ℕ → ℕ → ℕ → Text → ℕ × ℕ
three lo hi b [] = bad_rune
three lo hi b (c ∷ []) = bad_rune
three lo hi b (c ∷ d ∷ s) =
    if within lo hi c && within 0x80 0xBF d
    then (b % 16 * 4096 + c % 64 * 64 + d % 64, 3)
    else bad_rune

unfoldable four : ℕ → ℕ → ℕ → Text → ℕ × ℕ
four lo hi b [] = bad_rune
four lo hi b (c ∷ []) = bad_rune
four lo hi b (c ∷ d ∷ []) = bad_rune
four lo hi b (c ∷ d ∷ e ∷ s) =
    if within lo hi c && (within 0x80 0xBF d && within 0x80 0xBF e)
    then (b % 8 * 262144 + c % 64 * 4096 + d % 64 * 64 + e % 64, 4)
    else bad_rune

-- The first byte decides how many follow, and which values the second may have.
unfoldable pub decode_rune : ℕ → Text → ℕ × ℕ
unfolding two three four
decode_rune b s =
    if ltb b 0x80
    then (b, 1)
    else if within 0xC2 0xDF b
    then two b s
    else if within 0xE0 0xE0 b
    then three 0xA0 0xBF b s
    else if within 0xED 0xED b
    then three 0x80 0x9F b s
    else if within 0xE1 0xEF b
    then three 0x80 0xBF b s
    else if within 0xF0 0xF0 b
    then four 0x90 0xBF b s
    else if within 0xF1 0xF3 b
    then four 0x80 0xBF b s
    else if within 0xF4 0xF4 b
    then four 0x80 0x8F b s
    else bad_rune

-- `skip` bytes still belong to the last rune.
unfoldable pub runes : ℕ → Text → List ℕ
runes skip [] = []
runes (suc skip) (b ∷ s) = runes skip s
runes zero (b ∷ s) = let (r, width) = decode_rune b s in r ∷ runes (width - 1) s

-- A byte below 0x80 is its own rune; any other begins a rune above ASCII.
pub decode_ascii : (b : ℕ) (s : Text) → b < 0x80 → decode_rune b s ≡ (b, 1)
unfolding decode_rune
decode_ascii b s h = ground arith

two-high : (b : ℕ) (s : Text) → 0xC2 ≤ b → b ≤ 0xDF → 0x7E < (two b s).0
unfolding two
two-high b [] h k = omega arith
two-high b (c ∷ s) h k = ground arith

three-high :
    (lo hi b : ℕ) (s : Text)
    → (0x80 ≤ lo)
    → (hi ≤ 0xBF)
    → (0x82 ≤ b % 16 * 4096 + lo % 64 * 64)
    → 0x7E < (three lo hi b s).0
unfolding three
three-high lo hi b [] h k m = omega arith
three-high lo hi b (c ∷ []) h k m = omega arith
three-high lo hi b (c ∷ d ∷ s) h k m = ground arith

four-high :
    (lo hi b : ℕ) (s : Text)
    → (0x80 ≤ lo)
    → (hi ≤ 0xBF)
    → (0x82 ≤ b % 8 * 262144 + lo % 64 * 4096)
    → 0x7E < (four lo hi b s).0
unfolding four
four-high lo hi b [] h k m = omega arith
four-high lo hi b (c ∷ []) h k m = omega arith
four-high lo hi b (c ∷ d ∷ []) h k m = omega arith
four-high lo hi b (c ∷ d ∷ e ∷ s) h k m = ground arith

-- By the ranges of the first byte.
decode_high_two : (b : ℕ) (s : Text) → 0x80 ≤ b → b < 0xE0 → 0x7E < (decode_rune b s).0
unfolding decode_rune
decode_high_two b s h k = ground (arith, two-high b s)

decode_high_e0 : (b : ℕ) (s : Text) → 0xE0 ≤ b → b ≤ 0xE0 → 0x7E < (decode_rune b s).0
unfolding decode_rune
decode_high_e0 b s h k =
    let fact = three-high 0xA0 0xBF b s (omega arith) (omega arith) (omega arith) in ground arith

decode_high_ed : (b : ℕ) (s : Text) → 0xED ≤ b → b ≤ 0xED → 0x7E < (decode_rune b s).0
unfolding decode_rune
decode_high_ed b s h k =
    let fact = three-high 0x80 0x9F b s (omega arith) (omega arith) (omega arith) in ground arith

decode_high_three :
    (b : ℕ) (s : Text)
    → (0xE1 ≤ b)
    → (b < 0xF0)
    → (within 0xED 0xED b ≡ false)
    → 0x7E < (decode_rune b s).0
unfolding decode_rune
decode_high_three b s h k n =
    let fact = three-high 0x80 0xBF b s (omega arith) (omega arith) (omega arith) in
    let e1 : ltb b 0x80 ≡ false = ground arith in
    let e2 : within 0xC2 0xDF b ≡ false = ground arith in
    let e3 : within 0xE0 0xE0 b ≡ false = ground arith in
    let e4 : within 0xE1 0xEF b ≡ true = ground arith in rw (e1, e2, e3, n, e4) fact

decode_high_above : (b : ℕ) (s : Text) → 0xF0 ≤ b → 0x7E < (decode_rune b s).0
unfolding decode_rune
decode_high_above b s h =
    ground (arith, four-high 0x90 0xBF b s, four-high 0x80 0xBF b s, four-high 0x80 0x8F b s)

decode_high_middle : (b : ℕ) (s : Text) → 0xE1 ≤ b → b < 0xF0 → 0x7E < (decode_rune b s).0
decode_high_middle b s h k = elim (Bool-cases (within 0xED 0xED b)) [
  | inl e ↦ decode_high_ed b s (ground arith) (ground arith)
  | inr e ↦ decode_high_three b s h k e
]

pub decode_high : (b : ℕ) (s : Text) → 0x80 ≤ b → 0x7E < (decode_rune b s).0
decode_high b s h = elim (Bool-cases (ltb b 0xF0)) [
  | inl e ↦ ground (arith, decode_high_two b s, decode_high_e0 b s, decode_high_middle b s)
  | inr e ↦ decode_high_above b s (ground arith)
]
