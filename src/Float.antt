-- ===== src/Float.antt =====
-- float64 as a parameter: the operations that the program uses, and the laws of IEEE 754 comparison
-- that proofs rely on. `ratio p q` is the literal with the value p/q, as `0.1` is `ratio 1 10`.
use carrier_gateway.Prelude.{ℕ, ℤ, ◌≡◌, ◌⊎◌, Bool, true, false}

pub record FloatOps (F : Type 0) : Type 0 where
  pub lt : F → F → Bool
  pub eq : F → F → Bool
  pub add : F → F → F
  pub sub : F → F → F
  pub mul : F → F → F
  pub div : F → F → F
  pub of_int : ℤ → F
  pub ratio : ℕ → ℕ → F
  pub max_float : F
  pub is_nan : F → Bool

-- Comparison is false at a NaN, and a total order up to `eq` elsewhere.
pub record FloatLaws (F : Type 0) (o : FloatOps F) : Type 0 where
  pub lt_irrefl : (a : F) → o.lt a a ≡ false
  pub lt_trans : (a b c : F) → o.lt a b ≡ true → o.lt b c ≡ true → o.lt a c ≡ true
  pub eq_sym : (a b : F) → o.eq a b ≡ true → o.eq b a ≡ true
  pub eq_trans : (a b c : F) → o.eq a b ≡ true → o.eq b c ≡ true → o.eq a c ≡ true
  pub eq-lt : (a b c : F) → o.eq a b ≡ true → o.lt b c ≡ true → o.lt a c ≡ true
  pub lt-eq : (a b c : F) → o.lt a b ≡ true → o.eq b c ≡ true → o.lt a c ≡ true
  pub lt-eq_false : (a b : F) → o.lt a b ≡ true → o.eq a b ≡ false
  pub total :
      (a b : F)
      → o.is_nan a ≡ false
      → o.is_nan b ≡ false
      → (o.lt a b ≡ true) ⊎ (o.eq a b ≡ true) ⊎ (o.lt b a ≡ true)
