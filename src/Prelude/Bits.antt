-- ===== src/Prelude/Bits.antt =====
-- The bitwise operations at variables: one equation for the lowest digit, and what follows at
-- every width.
use Prim.Native.Nat.{ℕ, zero, suc, ◌+◌, ◌*◌, ◌/◌, ◌%◌, ◌^◌, ◌≤◌, ◌<◌, max}
use Prim.Native.Nat.{bit_or, bit_xor, digits, bitwise, differ}
use Prim.Native.Nat.{bit_or-bitwise, bit_xor-bitwise}
use mathlib.Core.Path.{◌≡◌, refl, sym, ap, ◌∙◌}
use native.Mathlib.Nat.{le_refl, pow-suc}
use native.Mathlib.Omega.{arith}

-- The loop over the digits, run with any bound that is not below the number.
digits_enough :
    (bound fuel : ℕ) (base : ℕ → ℕ) (digit : ℕ → ℕ → ℕ) (a b : ℕ)
    → fuel ≤ bound
    → a ≤ fuel
    → digits base digit fuel a b ≡ bitwise base digit a b
digits_enough bound zero base digit zero b below enough = refl
digits_enough bound zero base digit (suc a) b below enough = absurd (omega arith)
digits_enough bound (suc fuel) base digit zero b below enough = refl
digits_enough zero (suc fuel) base digit (suc a) b below enough = absurd (omega arith)
digits_enough (suc bound) (suc fuel) base digit (suc a) b below enough =
    let run = digits_enough bound fuel base digit (suc a / 2) (b / 2) (omega arith) (omega arith) in
    let own = digits_enough bound a base digit (suc a / 2) (b / 2) (omega arith) (omega arith) in
    ap (λ (t : ℕ). t * 2 + digit (suc a % 2) (b % 2)) (run ∙ sym own)

-- One digit at a time, where the value for an empty left side follows the same equation.
bitwise_step :
    (base : ℕ → ℕ) (digit : ℕ → ℕ → ℕ)
    → ((b : ℕ) → base b ≡ base (b / 2) * 2 + digit 0 (b % 2))
    → (a b : ℕ)
    → bitwise base digit a b ≡ bitwise base digit (a / 2) (b / 2) * 2 + digit (a % 2) (b % 2)
bitwise_step base digit low zero b = low b
bitwise_step base digit low (suc a) b =
    ap (λ (t : ℕ). t * 2 + digit (suc a % 2) (b % 2))
      (digits_enough a a base digit (suc a / 2) (b / 2) (le_refl a) (omega arith))

differ-eq : (a b : ℕ) → a < 2 → b < 2 → differ a b ≡ (a + b) % 2
differ-eq zero b p q = omega arith
differ-eq (suc zero) zero p q = refl
differ-eq (suc zero) (suc zero) p q = refl
differ-eq (suc zero) (suc (suc b)) p q = absurd (omega arith)
differ-eq (suc (suc a)) b p q = absurd (omega arith)

pub bit_or_step : (a b : ℕ) → bit_or a b ≡ bit_or (a / 2) (b / 2) * 2 + max (a % 2) (b % 2)
bit_or_step a b = simp bit_or-bitwise (bitwise_step (λ y. y) max (λ y. omega arith) a b)

pub bit_xor_step : (a b : ℕ) → bit_xor a b ≡ bit_xor (a / 2) (b / 2) * 2 + (a % 2 + b % 2) % 2
bit_xor_step a b =
    let step : bit_xor a b ≡ bit_xor (a / 2) (b / 2) * 2 + differ (a % 2) (b % 2) =
      simp bit_xor-bitwise (
        bitwise_step (λ y. y) differ
          (λ y. omega (arith, differ-eq 0 (y % 2) (omega arith) (omega arith))) a b) in
    omega (arith, step, differ-eq (a % 2) (b % 2) (omega arith) (omega arith))

xor_cancel_fuel : (n a b : ℕ) → a ≤ n → b ≤ n → bit_xor (bit_xor a b) b ≡ a
xor_cancel_fuel zero zero zero p q = refl
xor_cancel_fuel zero zero (suc b) p q = absurd (omega arith)
xor_cancel_fuel zero (suc a) b p q = absurd (omega arith)
xor_cancel_fuel (suc n) a b p q =
    let half : bit_xor a b / 2 ≡ bit_xor (a / 2) (b / 2) = omega (arith, bit_xor_step a b) in
    let odd : bit_xor a b % 2 ≡ (a % 2 + b % 2) % 2 = omega (arith, bit_xor_step a b) in
    bit_xor_step (bit_xor a b) b
    ∙ rw (half, odd, xor_cancel_fuel n (a / 2) (b / 2) (omega arith) (omega arith)) (omega arith)

-- A second `^` with the same number takes the first one back.
pub xor_cancel : (a b : ℕ) → bit_xor (bit_xor a b) b ≡ a
xor_cancel a b = xor_cancel_fuel (a + b) a b (omega arith) (omega arith)

pub zero-xor : (b : ℕ) → bit_xor 0 b ≡ b
zero-xor b = bit_xor-bitwise 0 b

xor_self_fuel : (n a : ℕ) → a ≤ n → bit_xor a a ≡ 0
xor_self_fuel zero zero h = refl
xor_self_fuel zero (suc a) h = absurd (omega arith)
xor_self_fuel (suc n) a h = omega (arith, bit_xor_step a a, xor_self_fuel n (a / 2) (omega arith))

pub xor_self : (a : ℕ) → bit_xor a a ≡ 0
xor_self a = xor_self_fuel a a (le_refl a)

pub eq_of_xor : (a b : ℕ) → bit_xor a b ≡ 0 → a ≡ b
eq_of_xor a b h = sym (xor_cancel a b) ∙ rw h (zero-xor b)

zero-or : (b : ℕ) → bit_or 0 b ≡ b
zero-or b = bit_or-bitwise 0 b

-- An `|` is at least each of the two.
or_ge_fuel : (n a b : ℕ) → a ≤ n → b ≤ n → (a ≤ bit_or a b) × (b ≤ bit_or a b)
or_ge_fuel zero zero b p q = omega (arith, zero-or b)
or_ge_fuel zero (suc a) b p q = absurd (omega arith)
or_ge_fuel (suc n) a b p q =
    let (l, r) = or_ge_fuel n (a / 2) (b / 2) (omega arith) (omega arith) in
    omega (arith, bit_or_step a b)

pub or_ge : (a b : ℕ) → (a ≤ bit_or a b) × (b ≤ bit_or a b)
or_ge a b = or_ge_fuel (a + b) a b (omega arith) (omega arith)

pub or_lt : (k a b : ℕ) → a < 2 ^ k → b < 2 ^ k → bit_or a b < 2 ^ k
or_lt zero zero zero p q = omega arith
or_lt zero zero (suc b) p q = absurd (omega arith)
or_lt zero (suc a) b p q = absurd (omega arith)
or_lt (suc k) a b p q = omega (
  arith,
  pow-suc 2 k,
  bit_or_step a b,
  or_lt k (a / 2) (b / 2) (omega (arith, pow-suc 2 k)) (omega (arith, pow-suc 2 k)),
)

pub xor_lt : (k a b : ℕ) → a < 2 ^ k → b < 2 ^ k → bit_xor a b < 2 ^ k
xor_lt zero zero zero p q = omega arith
xor_lt zero zero (suc b) p q = absurd (omega arith)
xor_lt zero (suc a) b p q = absurd (omega arith)
xor_lt (suc k) a b p q = omega (
  arith,
  pow-suc 2 k,
  bit_xor_step a b,
  xor_lt k (a / 2) (b / 2) (omega (arith, pow-suc 2 k)) (omega (arith, pow-suc 2 k)),
)
