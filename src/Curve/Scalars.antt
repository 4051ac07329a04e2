-- ===== src/Curve/Scalars.antt =====
-- `scalar_mul` against the doubling recursion.
use crypto_kiddie.Prelude.{
  ℕ, zero, suc, ◌+◌, ◌/◌, ◌%◌, ◌^◌, ◌<◌, ◌≡◌, refl, sym, ap, ◌∙◌, arith, Bool, if◌then◌else◌, ◌==◌,
  Bool-cases, inl, inr,
}
use native.Mathlib.Nat.{div-div-eq-div-mul}
use crypto_kiddie.Curve.Numbers.{BigUint, IsNatural}
use crypto_kiddie.Curve.{Curve, Point, infinity, double, add, bit_loop, scalar_mul}

module _ (N : BigUint) (law : IsNatural N) (c : Curve N) (point : Point N) where
  -- One binary digit, from the top down.
  abbrev pub push_bit : Bool → Point N → Point N
  push_bit b p = if b then add N c (double N c p) point else double N c p

  -- The multiple of the point by the binary digits of a number, the last digit outermost: what
  -- `n` times the point is by doubling, with `rounds` digits.
  unfoldable pub times : ℕ → ℕ → Point N
  times zero n = infinity
  times (suc rounds) n = push_bit (n % 2 == 1) (times rounds (n / 2))

  times-zero : (rounds : ℕ) → times rounds 0 ≡ infinity
  unfolding times double
  times-zero zero = refl
  times-zero (suc rounds) = ap (λ p. double N c p) (times-zero rounds)

  half_lt : (n r : ℕ) → n < 2 ^ suc r → n / 2 < 2 ^ r
  half_lt n r h = omega arith

  -- More digits than the number has change nothing.
  times-stable : (r s n : ℕ) → n < 2 ^ r → n < 2 ^ s → times r n ≡ times s n
  unfolding times
  times-stable zero s n h k =
      let none_left : n ≡ 0 = omega arith in rw none_left (sym (times-zero s))
  times-stable (suc r) zero n h k =
      let none_left : n ≡ 0 = omega arith in rw none_left (times-zero (suc r))
  times-stable (suc r) (suc s) n h k =
      ap (push_bit (n % 2 == 1)) (times-stable r s (n / 2) (half_lt n r h) (half_lt n s k))

  -- The digits above `i` have been pushed; the loop pushes the others.
  bit_loop-times :
      (k : N.Int) (i r : ℕ)
      → bit_loop N c k point i (times r (law.value k / 2 ^ i)) ≡ times (r + i) (law.value k)
  unfolding bit_loop times
  bit_loop-times k zero r =
      let whole : law.value k / 2 ^ 0 ≡ law.value k = omega arith in
      let same : r + 0 ≡ r = omega arith in rw (whole, same) refl
  bit_loop-times k (suc i) r =
      let v = law.value k in
      let half : v / 2 ^ i / 2 ≡ v / 2 ^ suc i =
        div-div-eq-div-mul v (2 ^ i) 2 ∙ ap (λ (x : ℕ). v / x) (omega arith) in
      let pushed : push_bit (N.bit k i) (times r (v / 2 ^ suc i)) ≡ times (suc r) (v / 2 ^ i) =
        rw (law.bit_eq k i, sym half) refl in
      let same : suc r + i ≡ r + suc i = omega arith in
      ap (bit_loop N c k point i) pushed
      ∙ bit_loop-times k i (suc r)
      ∙ ap (λ (x : ℕ). times x v) same

  -- The loop over the bits of the scalar gives the multiple by its binary digits, whatever number
  -- of digits is taken, as long as the scalar has no more.
  pub scalar_mul-times :
      (k : N.Int) (rounds : ℕ)
      → law.value k < 2 ^ rounds
      → scalar_mul N c k point ≡ times rounds (law.value k)
  unfolding scalar_mul times
  scalar_mul-times k rounds h =
      let v = law.value k in
      let none_above : 0 + N.bits k ≡ N.bits k = omega arith in
      elim (Bool-cases (N.is_zero k)) [
        | inl is ↦
            let zero_value : v ≡ 0 = (law.is_zero_iff k).0 is in
            rw (is, zero_value) (sym (times-zero rounds))
        | inr isnt ↦ rw isnt (
            bit_loop-times k (N.bits k) 0
            ∙ ap (λ (x : ℕ). times x v) none_above
            ∙ times-stable (N.bits k) rounds v (law.value-bits k) h)
      ]
