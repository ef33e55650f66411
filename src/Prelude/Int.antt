-- ===== src/Prelude/Int.antt =====
-- Go's signed integers: ℤ, and the wrap-around of int32 and int64 written out.
use Prim.Native.Nat.{ℕ, suc, ◌+◌, ◌-◌, ◌*◌, ◌/◌, ◌%◌, ◌≤◌, ◌<◌}
use mathlib.Core.Path.{◌≡◌}
use mathlib.Core.Bool.{Bool}
use native.Mathlib.Omega.{arith}
use carrier_gateway.Prelude.Tests.{ltb, leb, if◌then◌else◌}

-- `negsuc n` is -(n + 1).
pub data ℤ : Type 0 where
  pos : ℕ → ℤ
  negsuc : ℕ → ℤ

abbrev pub pos_part : ℤ → ℕ
pos_part (pos n) = n
pos_part (negsuc n) = 0

abbrev pub neg_part : ℤ → ℕ
neg_part (pos n) = 0
neg_part (negsuc n) = suc n

-- a - b, as an integer.
abbrev pub sub_ℕ : ℕ → ℕ → ℤ
sub_ℕ a b = if leb b a then pos (a - b) else negsuc (b - a - 1)

infixl 65 ◌+ℤ◌ ◌-ℤ◌
infixl 70 ◌*ℤ◌
abbrev pub ◌+ℤ◌ : ℤ → ℤ → ℤ
a +ℤ b = sub_ℕ (pos_part a + pos_part b) (neg_part a + neg_part b)

abbrev pub ◌-ℤ◌ : ℤ → ℤ → ℤ
a -ℤ b = sub_ℕ (pos_part a + neg_part b) (neg_part a + pos_part b)

abbrev pub ◌*ℤ◌ : ℤ → ℤ → ℤ
a *ℤ b =
    sub_ℕ (pos_part a * pos_part b + neg_part a * neg_part b)
      (pos_part a * neg_part b + neg_part a * pos_part b)

infix 50 ◌≤ℤ◌ ◌<ℤ◌
abbrev pub ◌≤ℤ◌ : ℤ → ℤ → Type 0
a ≤ℤ b = pos_part a + neg_part b ≤ pos_part b + neg_part a

abbrev pub ◌<ℤ◌ : ℤ → ℤ → Type 0
a <ℤ b = pos_part a + neg_part b < pos_part b + neg_part a

-- The tests `a <= b` and `a < b`.
abbrev pub leb_int : ℤ → ℤ → Bool
leb_int a b = leb (pos_part a + neg_part b) (pos_part b + neg_part a)

abbrev pub ltb_int : ℤ → ℤ → Bool
ltb_int a b = ltb (pos_part a + neg_part b) (pos_part b + neg_part a)

-- a / d for a numeral d > 0: Go rounds towards zero.
abbrev pub quot : ℤ → ℕ → ℤ
quot (pos n) d = pos (n / d)
quot (negsuc n) d = sub_ℕ 0 (suc n / d)

-- The residue of an integer modulo m > 0, as a machine register holds it.
abbrev pub residue : ℕ → ℤ → ℕ
residue m (pos n) = n % m
residue m (negsuc n) = m - 1 - n % m

-- A register of 2 * half values read as two's complement.
abbrev pub signed : ℕ → ℕ → ℤ
signed half r = if ltb r half then pos r else negsuc (2 * half - 1 - r)

abbrev pub half32 : ℕ
half32 = 2147483648

abbrev pub half64 : ℕ
half64 = 9223372036854775808

-- The conversions `int32(x)` and `int64(x)`, which every fixed-width operation ends with.
pub to_int32 : ℤ → ℤ
to_int32 a = signed half32 (residue (2 * half32) a)

pub to_int64 : ℤ → ℤ
to_int64 a = signed half64 (residue (2 * half64) a)

-- In range, the conversion is the identity.
pub to_int32-pos : (n : ℕ) → n < half32 → to_int32 (pos n) ≡ pos n
unfolding to_int32
to_int32-pos n h = ground arith

pub to_int64-pos : (n : ℕ) → n < half64 → to_int64 (pos n) ≡ pos n
unfolding to_int64
to_int64-pos n h = ground arith

pub to_int64-negsuc : (n : ℕ) → n < half64 → to_int64 (negsuc n) ≡ negsuc n
unfolding to_int64
to_int64-negsuc n h = ground arith

-- Whatever is converted, the result fits 32 bits.
pub to_int32-range : (a : ℤ) → (negsuc (half32 - 1) ≤ℤ to_int32 a) × (to_int32 a <ℤ pos half32)
unfolding to_int32
to_int32-range (pos n) = ground arith
to_int32-range (negsuc n) = ground arith
