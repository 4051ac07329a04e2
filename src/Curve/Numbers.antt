-- ===== src/Curve/Numbers.antt =====
-- The numbers of the crate num-bigint: what src/gost_ec.rs and src/gost_vko.rs call, and what the
-- crate's documentation says of it.
use crypto_kiddie.Prelude.{
  ℕ, suc, ◌+◌, ◌*◌, ◌-◌, ◌/◌, ◌%◌, ◌^◌, ◌≤◌, ◌<◌, ◌≡◌, ◌↔◌, List, Bool, true, ◌==◌, length,
  le_value, IsBytes,
}

pub record BigUint : Type 1 where
  pub Int : Type 0
  pub of : ℕ → Int
  pub plus : Int → Int → Int
  pub sub : Int → Int → Int
  pub mul : Int → Int → Int
  pub rem : Int → Int → Int
  pub gcd : Int → Int → Int
  pub modpow : Int → Int → Int → Int
  pub eq : Int → Int → Bool
  pub lt : Int → Int → Bool
  pub is_zero : Int → Bool
  pub bits : Int → ℕ
  pub bit : Int → ℕ → Bool
  pub to_bytes_le : Int → List ℕ
  pub to_bytes_be : Int → List ℕ
  pub from_bytes_le : List ℕ → Int
  pub from_bytes_be : List ℕ → Int

-- An integer of the crate is a natural number. Its bytes are those of the number without zeros at
-- the top, and one byte for zero.
pub record IsNatural (N : BigUint) : Type 0 where
  pub value : N.Int → ℕ
  pub value_injective : (a b : N.Int) → value a ≡ value b → a ≡ b
  pub value-of : (n : ℕ) → value (N.of n) ≡ n
  pub value-plus : (a b : N.Int) → value (N.plus a b) ≡ value a + value b
  pub value-sub : (a b : N.Int) → value b ≤ value a → value (N.sub a b) ≡ value a - value b
  pub value-mul : (a b : N.Int) → value (N.mul a b) ≡ value a * value b
  pub value-rem : (a b : N.Int) → 0 < value b → value (N.rem a b) ≡ value a % value b
  pub eq_iff : (a b : N.Int) → (N.eq a b ≡ true) ↔ (value a ≡ value b)
  pub lt_iff : (a b : N.Int) → (N.lt a b ≡ true) ↔ (value a < value b)
  pub is_zero_iff : (a : N.Int) → (N.is_zero a ≡ true) ↔ (value a ≡ 0)
  pub bit_eq : (a : N.Int) (i : ℕ) → N.bit a i ≡ ((value a / 2 ^ i) % 2 == 1)
  pub value-bits : (a : N.Int) → value a < 2 ^ N.bits a
  pub value-le : (a : N.Int) → le_value (N.to_bytes_le a) ≡ value a
  pub bytes_le : (a : N.Int) → IsBytes (N.to_bytes_le a)
  pub length_le : (a : N.Int) (n : ℕ) → 0 < n → value a < 256 ^ n → length (N.to_bytes_le a) ≤ n
  pub length_be :
      (a : N.Int) (n : ℕ)
      → 256 ^ n ≤ value a
      → value a < 256 ^ suc n
      → length (N.to_bytes_be a) ≡ suc n
  pub value-from_le : (bs : List ℕ) → IsBytes bs → value (N.from_bytes_le bs) ≡ le_value bs
