-- ===== src/Prelude/Parts.antt =====
-- What the program uses of Go's strings package: Split at one byte, Join, TrimSpace, TrimPrefix.
use Prim.Native.Nat.{ℕ, zero, suc}
use mathlib.Core.Path.{◌≡◌, refl, sym, ap, ◌∙◌}
use mathlib.Core.Logic.{◌≢◌, inl, inr, ◌⊎◌}
use mathlib.Core.Bool.{Bool, ◌&&◌, ◌||◌}
use mathlib.Core.Option.{Option, none, some}
use mathlib.Core.List.{List, [], ◌∷◌, ◌++◌, reverse}
use native.Mathlib.Omega.{arith}
use carrier_gateway.Prelude.Tests.{within, ◌==◌, if◌then◌else◌, Bool-cases, Option-cases}
use carrier_gateway.Prelude.Strings.{Text}
use carrier_gateway.Prelude.Lists.{All, reverse-All}

abbrev pub cons_head : ℕ → List Text → List Text
cons_head c [] = (c ∷ []) ∷ []
cons_head c (p ∷ ps) = (c ∷ p) ∷ ps

-- `strings.Split(s, sep)` for a separator of one byte.
unfoldable pub split : ℕ → Text → List Text
split sep [] = [] ∷ []
split sep (c ∷ s) = let rest = split sep s in if c == sep then [] ∷ rest else cons_head c rest

-- `strings.Join`
unfoldable pub join : ℕ → List Text → Text
join sep [] = []
join sep (p ∷ []) = p
join sep (p ∷ q ∷ ps) = p ++ sep ∷ join sep (q ∷ ps)

-- The white space of `unicode.IsSpace`, in UTF-8: of one, two and three bytes.
abbrev pub is_space1 : ℕ → Bool
is_space1 b = within 9 13 b || b == 32

abbrev pub is_space2 : ℕ → ℕ → Bool
is_space2 b c = b == 0xC2 && (c == 0x85 || c == 0xA0)

abbrev pub is_space3 : ℕ → ℕ → ℕ → Bool
is_space3 b c d =
    (b == 0xE1 && (c == 0x9A && d == 0x80))
    || ((b == 0xE2 && (c == 0x80 && (within 0x80 0x8A d || (within 0xA8 0xA9 d || d == 0xAF))))
        || ((b == 0xE2 && (c == 0x81 && d == 0x9F)) || (b == 0xE3 && (c == 0x80 && d == 0x80))))

-- How many bytes the white space takes that starts with `b`, and that ends with `b` where the text
-- before it is read backwards; 0 where it is no white space.
unfoldable pub width_ahead : ℕ → Text → ℕ
width_ahead b [] = if is_space1 b then 1 else 0
width_ahead b (c ∷ []) = if is_space1 b then 1 else if is_space2 b c then 2 else 0
width_ahead b (c ∷ d ∷ s) =
    if is_space1 b then 1 else if is_space2 b c then 2 else if is_space3 b c d then 3 else 0

unfoldable pub width_behind : ℕ → Text → ℕ
width_behind b [] = if is_space1 b then 1 else 0
width_behind b (c ∷ []) = if is_space1 b then 1 else if is_space2 c b then 2 else 0
width_behind b (c ∷ d ∷ s) =
    if is_space1 b then 1 else if is_space2 c b then 2 else if is_space3 d c b then 3 else 0

-- Drop white space from the start; `skip` bytes still belong to the last.
unfoldable pub trim_by : (ℕ → Text → ℕ) → ℕ → Text → Text
trim_by width skip [] = []
trim_by width (suc skip) (b ∷ s) = trim_by width skip s
trim_by width zero (b ∷ s) = elim (width b s) [ zero ↦ b ∷ s | suc n ↦ trim_by width n s ]

-- `strings.TrimSpace`
unfoldable pub trim_space : Text → Text
unfolding trim_by width_ahead width_behind
trim_space s = reverse (trim_by width_behind 0 (reverse (trim_by width_ahead 0 s)))

-- `strings.TrimPrefix(s, prefix)`, and none where `s` has no such prefix.
unfoldable pub strip_prefix : Text → Text → Option Text
strip_prefix [] s = some s
strip_prefix (b ∷ p) [] = none
strip_prefix (b ∷ p) (c ∷ s) = if b == c then strip_prefix p s else none

abbrev or_whole : Text → Option Text → Text
or_whole s none = s
or_whole s (some t) = t

unfoldable pub trim_prefix : Text → Text → Text
unfolding strip_prefix
trim_prefix prefix s = or_whole s (strip_prefix prefix s)

-- The byte does not occur.
abbrev pub Lacks : ℕ → Text → Type 0
Lacks sep = All (λ c. c ≢ sep)

split_whole : (sep : ℕ) (s : Text) → Lacks sep s → split sep s ≡ s ∷ []
unfolding split
split_whole sep [] h = refl
split_whole sep (c ∷ s) h = ground (arith, split_whole sep s h.1)

split-append : (sep : ℕ) (p s : Text) → Lacks sep p → split sep (p ++ sep ∷ s) ≡ p ∷ split sep s
unfolding split
split-append sep [] s h = ground arith
split-append sep (c ∷ p) s h = ground (arith, split-append sep p s h.1)

-- Splitting what was joined gives the parts back.
pub split-join :
    (sep : ℕ) (ps : List Text) → ps ≢ [] → All (Lacks sep) ps → split sep (join sep ps) ≡ ps
unfolding join
split-join sep [] e h = absurd (e refl)
split-join sep (p ∷ []) e h = split_whole sep p h.0
split-join sep (p ∷ q ∷ ps) e h =
    split-append sep p (join sep (q ∷ ps)) h.0
    ∙ ap (◌∷◌ p) (split-join sep (q ∷ ps) (λ x. absurd (ground arith)) h.1)

cons_head-Lacks :
    (sep c : ℕ) (ps : List Text) → c ≢ sep → All (Lacks sep) ps → All (Lacks sep) (cons_head c ps)
cons_head-Lacks sep c [] d h = ((d, tt), tt)
cons_head-Lacks sep c (p ∷ ps) d h = ((d, h.0), h.1)

-- No part of a split has the separator.
pub split-Lacks : (sep : ℕ) (s : Text) → All (Lacks sep) (split sep s)
unfolding split
split-Lacks sep [] = (tt, tt)
split-Lacks sep (c ∷ s) = elim (Bool-cases (c == sep)) [
  | inl e ↦ rw (e, split) (tt, split-Lacks sep s)
  | inr e ↦ rw (e, split) (cons_head-Lacks sep c (split sep s) (ground arith) (split-Lacks sep s))
]

elim_text-All :
    (P : ℕ → Type 0) (t : Text) (f : ℕ → Text) (n : ℕ)
    → All P t
    → ((m : ℕ) → All P (f m))
    → All P (elim n [ zero ↦ t | suc m ↦ f m ])
elim_text-All P t f zero ht hf = ht
elim_text-All P t f (suc m) ht hf = hf m

trim_by-All :
    (P : ℕ → Type 0) (width : ℕ → Text → ℕ) (skip : ℕ) (s : Text)
    → All P s
    → All P (trim_by width skip s)
unfolding trim_by
trim_by-All P width skip [] h = tt
trim_by-All P width (suc skip) (b ∷ s) h = trim_by-All P width skip s h.1
trim_by-All P width zero (b ∷ s) h =
    elim_text-All P (b ∷ s) (λ m. trim_by width m s) (width b s) h
      (λ m. trim_by-All P width m s h.1)

-- Trimming keeps out a byte that does not occur.
pub trim_space-All : (P : ℕ → Type 0) (s : Text) → All P s → All P (trim_space s)
unfolding trim_space
trim_space-All P s h =
    let ahead = trim_by-All P width_ahead 0 s h in
    let behind =
      trim_by-All P width_behind 0 (reverse (trim_by width_ahead 0 s))
        (reverse-All P (trim_by width_ahead 0 s) ahead) in
    reverse-All P (trim_by width_behind 0 (reverse (trim_by width_ahead 0 s))) behind

pub strip_prefix-append : (p t : Text) → strip_prefix p (p ++ t) ≡ some t
unfolding strip_prefix
strip_prefix-append [] t = refl
strip_prefix-append (b ∷ p) t = ground (arith, strip_prefix-append p t)

pub strip_prefix-some : (p s t : Text) → strip_prefix p s ≡ some t → s ≡ p ++ t
unfolding strip_prefix
strip_prefix-some [] s t h = ground arith
strip_prefix-some (b ∷ p) [] t h = absurd (ground arith)
strip_prefix-some (b ∷ p) (c ∷ s) t h = ground (arith, strip_prefix-some p s t)

pub trim_prefix-append : (p t : Text) → trim_prefix p (p ++ t) ≡ t
unfolding trim_prefix
trim_prefix-append p t = ap (or_whole (p ++ t)) (strip_prefix-append p t)

-- Nothing is trimmed, or the prefix is.
pub trim_prefix-cases : (p s : Text) → (trim_prefix p s ≡ s) ⊎ (s ≡ p ++ trim_prefix p s)
unfolding trim_prefix
trim_prefix-cases p s = elim (Option-cases (strip_prefix p s)) [
  | inl e ↦ inl (ap (or_whole s) e)
  | inr (t, e) ↦ inr (strip_prefix-some p s t e ∙ ap (λ x. p ++ or_whole s x) (sym e))
]
