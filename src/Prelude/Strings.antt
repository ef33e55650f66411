-- ===== src/Prelude/Strings.antt =====
-- Go's strings: sequences of bytes, with equality and the order of `cmp.Compare`.
use Prim.Native.Nat.{ℕ, compare, Ordering}
use Prim.Native.Char.{code}
use Prim.Native.String.{String}
use mathlib.Core.Path.{◌≡◌, refl}
use mathlib.Core.Logic.{◌↔◌}
use mathlib.Core.Bool.{Bool, true, false, ◌&&◌}
use mathlib.Core.List.{List, [], ◌∷◌}
use native.Mathlib.Omega.{arith}
use carrier_gateway.Prelude.Tests.{◌==◌}

abbrev pub Text : Type 0
Text = List ℕ

-- The bytes of an ASCII literal of the source.
abbrev pub bytes : String → Text
bytes String.[] = []
bytes (String.◌∷◌ c s) = code c ∷ bytes s

-- s == t
unfoldable pub text_eq : Text → Text → Bool
text_eq [] [] = true
text_eq [] (c ∷ t) = false
text_eq (b ∷ s) [] = false
text_eq (b ∷ s) (c ∷ t) = (b == c) && text_eq s t

pub text_eq_iff : (s t : Text) → (text_eq s t ≡ true) ↔ (s ≡ t)
unfolding text_eq
text_eq_iff [] [] = ground arith
text_eq_iff [] (c ∷ t) = ground arith
text_eq_iff (b ∷ s) [] = ground arith
text_eq_iff (b ∷ s) (c ∷ t) = ground (arith, text_eq_iff s t)

pub text_eq_refl : (s : Text) → text_eq s s ≡ true
text_eq_refl s = (text_eq_iff s s).1 refl

-- s != "" and s == ""
abbrev pub is_empty : Text → Bool
is_empty [] = true
is_empty (b ∷ s) = false

-- `cmp.Compare(s, t)`: the first byte that differs decides, then the length.
unfoldable pub text_cmp : Text → Text → Ordering
text_cmp [] [] = Ordering.eq
text_cmp [] (c ∷ t) = Ordering.lt
text_cmp (b ∷ s) [] = Ordering.gt
text_cmp (b ∷ s) (c ∷ t) =
    let rest = text_cmp s t in
    elim (compare b c) [
      | Ordering.lt ↦ Ordering.lt
      | Ordering.eq ↦ rest
      | Ordering.gt ↦ Ordering.gt
    ]

pub text_cmp-eq : (s t : Text) → text_cmp s t ≡ Ordering.eq → s ≡ t
unfolding text_cmp
text_cmp-eq [] [] h = refl
text_cmp-eq [] (c ∷ t) h = cc
text_cmp-eq (b ∷ s) [] h = cc
text_cmp-eq (b ∷ s) (c ∷ t) h = ground (arith, text_cmp-eq s t)

pub text_cmp_refl : (s : Text) → text_cmp s s ≡ Ordering.eq
unfolding text_cmp
text_cmp_refl [] = refl
text_cmp_refl (b ∷ s) = ground (arith, text_cmp_refl s)

pub text_cmp_swap : (s t : Text) → text_cmp s t ≡ Ordering.gt → text_cmp t s ≡ Ordering.lt
unfolding text_cmp
text_cmp_swap [] [] h = cc
text_cmp_swap [] (c ∷ t) h = cc
text_cmp_swap (b ∷ s) [] h = refl
text_cmp_swap (b ∷ s) (c ∷ t) h = ground (arith, text_cmp_swap s t)

pub text_cmp_trans :
    (s t u : Text)
    → text_cmp s t ≡ Ordering.lt
    → text_cmp t u ≡ Ordering.lt
    → text_cmp s u ≡ Ordering.lt
unfolding text_cmp
text_cmp_trans [] [] u h k = cc
text_cmp_trans [] (c ∷ t) [] h k = cc
text_cmp_trans [] (c ∷ t) (d ∷ u) h k = refl
text_cmp_trans (b ∷ s) [] u h k = cc
text_cmp_trans (b ∷ s) (c ∷ t) [] h k = cc
text_cmp_trans (b ∷ s) (c ∷ t) (d ∷ u) h k = ground (arith, text_cmp_trans s t u)
