-- ===== src/Tests/Naturals.antt =====
-- The natural numbers as the numbers of the curve.
use crypto_kiddie.Prelude.{
  ℕ, zero, suc, ◌+◌, ◌*◌, ◌-◌, ◌/◌, ◌%◌, ◌^◌, ◌≤◌, ◌<◌, ◌≡◌, refl, arith, List, [], ◌∷◌, true,
  false, ltb, ◌==◌, ==→eq, eq→==, ne→==, ◌∙◌, ap, ltb→lt, reverse, length, le_value, be_value,
  IsBytes, Bool-cases, inl, inr,
}
use crypto_kiddie.Der.RoundTrip.{length-reverse}
use crypto_kiddie.Curve.Numbers.{BigUint, IsNatural}

abbrev pub bit_length : ℕ → ℕ → ℕ
bit_length zero n = 0
bit_length (suc rounds) n = elim (n == 0) [ true ↦ 0 | false ↦ suc (bit_length rounds (n / 2)) ]

abbrev pub bytes_of : ℕ → ℕ → List ℕ
bytes_of zero n = []
bytes_of (suc rounds) n =
    n % 256 ∷ elim (n / 256 == 0) [ true ↦ [] | false ↦ bytes_of rounds (n / 256) ]

abbrev pub gcd_loop : ℕ → ℕ → ℕ → ℕ
gcd_loop zero a b = a
gcd_loop (suc rounds) a b = elim (b == 0) [ true ↦ a | false ↦ gcd_loop rounds b (a % b) ]

-- The power by squares.
abbrev pub pow_loop : ℕ → ℕ → ℕ → ℕ → ℕ
pow_loop zero a e m = 1 % m
pow_loop (suc rounds) a e m = elim (e == 0) [
  | true ↦ 1 % m
  | false ↦
      let half = pow_loop rounds (a * a % m) (e / 2) m in
      elim (e % 2 == 1) [ true ↦ a * half % m | false ↦ half ]
]

abbrev pub naturals : BigUint
naturals = record {
  Int = ℕ;
  of = λ n. n;
  plus = λ a b. a + b;
  sub = λ a b. a - b;
  mul = λ a b. a * b;
  rem = λ a b. a % b;
  gcd = λ a b. gcd_loop (suc b) a b;
  modpow = λ a e m. pow_loop (suc e) a e m;
  eq = λ a b. a == b;
  lt = ltb;
  is_zero = λ a. a == 0;
  bits = λ a. bit_length a a;
  bit = λ a i. (a / 2 ^ i) % 2 == 1;
  to_bytes_le = λ a. bytes_of (suc a) a;
  to_bytes_be = λ a. reverse (bytes_of (suc a) a);
  from_bytes_le = le_value;
  from_bytes_be = be_value;
}

pub value-bit_length : (rounds n : ℕ) → n ≤ rounds → n < 2 ^ bit_length rounds n
value-bit_length zero n h = omega arith
value-bit_length (suc rounds) n h = elim (Bool-cases (n == 0)) [
  | inl is ↦ let z : n ≡ 0 = ==→eq _ _ is in rw (z, bit_length) (omega arith)
  | inr isnt ↦
      let later = value-bit_length rounds (n / 2) (ground arith) in
      rw (bit_length, isnt) (omega (arith, later))
]

pub le_value-bytes_of : (rounds n : ℕ) → n < rounds → le_value (bytes_of rounds n) ≡ n
le_value-bytes_of zero n h = absurd (omega arith)
le_value-bytes_of (suc rounds) n h = elim (Bool-cases (n / 256 == 0)) [
  | inl is ↦ let z : n / 256 ≡ 0 = ==→eq _ _ is in rw is (omega arith)
  | inr isnt ↦
      let nz : ¬ (n / 256 ≡ 0) = λ z. let is = eq→== (n / 256) 0 z in cc in
      let later = le_value-bytes_of rounds (n / 256) (omega arith) in rw isnt (omega (arith, later))
]

pub bytes_of-IsBytes : (rounds n : ℕ) → IsBytes (bytes_of rounds n)
bytes_of-IsBytes zero n = tt
bytes_of-IsBytes (suc rounds) n = elim (Bool-cases (n / 256 == 0)) [
  | inl is ↦ rw is (omega arith, tt)
  | inr isnt ↦ rw isnt (omega arith, bytes_of-IsBytes rounds (n / 256))
]

positive : (m k : ℕ) → ¬ (k ≡ 0) → k < 256 ^ m → 0 < m
positive zero k nz h = absurd (omega arith)
positive (suc m) k nz h = omega arith

pub length-bytes_of : (rounds n m : ℕ) → 0 < m → n < 256 ^ m → length (bytes_of rounds n) ≤ m
length-bytes_of zero n m h k = omega arith
length-bytes_of (suc rounds) n zero h k = absurd (omega arith)
length-bytes_of (suc rounds) n (suc m) h k = elim (Bool-cases (n / 256 == 0)) [
  | inl is ↦ rw is (omega arith)
  | inr isnt ↦
      let nz : ¬ (n / 256 ≡ 0) = λ z. let is = eq→== (n / 256) 0 z in cc in
      let fits : n / 256 < 256 ^ m = omega arith in
      let more : 0 < m = positive m (n / 256) nz fits in
      rw isnt (omega (arith, length-bytes_of rounds (n / 256) m more fits))
]

power_positive : (m : ℕ) → 0 < 256 ^ m
power_positive zero = omega arith
power_positive (suc m) = omega (arith, power_positive m)

pub length-bytes_of_exact :
    (rounds n m : ℕ)
    → n < rounds
    → 256 ^ m ≤ n
    → n < 256 ^ suc m
    → length (bytes_of rounds n) ≡ suc m
length-bytes_of_exact zero n m r low high = absurd (omega arith)
length-bytes_of_exact (suc rounds) n zero r low high =
    let z : n / 256 ≡ 0 = omega arith in rw (eq→== _ _ z) refl
length-bytes_of_exact (suc rounds) n (suc m) r low high =
    let power = power_positive m in
    let some_left : ¬ (n / 256 ≡ 0) = omega (arith, power, low) in
    rw (ne→== _ _ some_left) (
      ap suc (
        length-bytes_of_exact rounds (n / 256) m (omega arith) (omega (arith, low))
          (omega (arith, high))))

abbrev pub naturals-IsNatural : IsNatural naturals
naturals-IsNatural = record {
  value = λ a. a;
  value_injective = λ a b e. e;
  value-of = λ n. refl;
  value-plus = λ a b. refl;
  value-sub = λ a b h. refl;
  value-mul = λ a b. refl;
  value-rem = λ a b h. refl;
  eq_iff = λ a b. (==→eq a b, eq→== a b);
  lt_iff = λ a b. (ltb→lt a b, λ h. ground arith);
  is_zero_iff = λ a. (==→eq a 0, eq→== a 0);
  bit_eq = λ a i. refl;
  value-bits = λ a. value-bit_length a a (omega arith);
  value-le = λ a. le_value-bytes_of (suc a) a (omega arith);
  bytes_le = λ a. bytes_of-IsBytes (suc a) a;
  length_le = λ a n h k. length-bytes_of (suc a) a n h k;
  length_be = λ a n low high.
      length-reverse (bytes_of (suc a) a)
      ∙ length-bytes_of_exact (suc a) a n (omega arith) low high;
  value-from_le = λ bs h. refl;
}
