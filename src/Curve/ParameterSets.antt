-- ===== src/Curve/ParameterSets.antt =====
-- The parameter sets of src/gost_ec.rs against the standard's description of them.
use crypto_kiddie.Prelude.{
  ℕ, ◌+◌, ◌*◌, ◌-◌, ◌%◌, ◌^◌, ◌≤◌, ◌<◌, ◌≡◌, ◌⊎◌, inl, inr, refl, sym, ap, ap₂, ◌∙◌, arith, true,
}
use crypto_kiddie.Curve.Numbers.{BigUint, IsNatural}
use crypto_kiddie.Curve.{
  Curve, affine, new_curve, mod_add, mod_mul, generator, is_on_curve, tc26_256_paramset_b,
  tc26_256_paramset_c, tc26_256_paramset_d,
}

-- A curve y^2 = x^3 - 3 x + b over the integers modulo `p`, with a base point of order `q`.
pub record Parameters : Type 0 where
  pub p : ℕ
  pub b : ℕ
  pub q : ℕ
  pub x : ℕ
  pub y : ℕ

-- The sets B, C and D of 256 bits (RFC 4357, RFC 7836).
abbrev pub standard_b : Parameters
standard_b = record {
  p = 2 ^ 256 - 617;
  b = 166;
  q = 0xFFFFFFFFFFFFFFFFFFFFFFFFFFFFFFFF6C611070995AD10045841B09B761B893;
  x = 1;
  y = 0x8D91E471E0989CDA27DF505A453F2B7635294F2DDF23E3B122ACC99C9E9F1E14;
}

abbrev pub standard_c : Parameters
standard_c = record {
  p = 2 ^ 255 + 3225;
  b = 0x3E1AF419A269A5F866A7D3C25C3DF80AE979259373FF2B182F49D4CE7E1BBC8B;
  q = 0x800000000000000000000000000000015F700CFFF1A624E5E497161BCC8A198F;
  x = 1;
  y = 0x3FA8124359F96680B83D1C3EB2C070E5C545C9858D03ECFB744BF8D717717EFC;
}

abbrev pub standard_d : Parameters
standard_d = record {
  p = 0x9B9F605F5A858107AB1EC85E6B41C8AACF846E86789051D37998F7B9022D759B;
  b = 32858;
  q = 0x9B9F605F5A858107AB1EC85E6B41C8AA582CA3511EDDFB74F02F3A6598980BB9;
  x = 0;
  y = 0x41ECE55743711A8C3CBF3783CD08C0EE4D4DC440D4641A8F366E550DFDB3BB67;
}

module _ (N : BigUint) (law : IsNatural N) where
  -- The curve of a set: its numbers, a coordinate of 32 bytes, and a base point that lies on it.
  pub record IsCurveOf (s : Parameters) (c : Curve N) : Type 0 where
    pub p : law.value c.p ≡ s.p
    pub a : law.value c.a + 3 ≡ s.p
    pub b : law.value c.b ≡ s.b
    pub q : law.value c.q ≡ s.q
    pub gx : law.value c.gx ≡ s.x
    pub gy : law.value c.gy ≡ s.y
    pub width : c.field_bytes ≡ 32
    pub base : is_on_curve N c (generator N c) ≡ true

  abbrev pub IsKnown : Curve N → Type 0
  IsKnown c = IsCurveOf standard_b c ⊎ IsCurveOf standard_c c ⊎ IsCurveOf standard_d c

  value-mod_mul :
      (a b p : N.Int)
      → 0 < law.value p
      → law.value (mod_mul N a b p) ≡ (law.value a * law.value b) % law.value p
  unfolding mod_mul
  value-mod_mul a b p h =
      law.value-rem (N.mul a b) p h ∙ ap (λ (n : ℕ). n % law.value p) (law.value-mul a b)

  value-mod_add :
      (a b p : N.Int)
      → 0 < law.value p
      → law.value (mod_add N a b p) ≡ (law.value a + law.value b) % law.value p
  unfolding mod_add
  value-mod_add a b p h =
      law.value-rem (N.plus a b) p h ∙ ap (λ (n : ℕ). n % law.value p) (law.value-plus a b)

  -- The equation of the curve, on numbers.
  abbrev Equation : (p a b x y : ℕ) → Type 0
  Equation p a b x y = (y * y) % p ≡ ((((x * x) % p * x) % p + (a * x) % p) % p + b) % p

  on_curve_of :
      (c : Curve N) (x y : N.Int)
      → 0 < law.value c.p
      → Equation (law.value c.p) (law.value c.a) (law.value c.b) (law.value x) (law.value y)
      → is_on_curve N c (affine x y) ≡ true
  unfolding is_on_curve
  on_curve_of c x y h e =
      let square = mod_mul N x x c.p in
      let cube = mod_mul N square x c.p in
      let linear = mod_mul N c.a x c.p in
      let sum = mod_add N cube linear c.p in
      let p = law.value c.p in
      (law.eq_iff (mod_mul N y y c.p) (mod_add N sum c.b c.p)).1 (
        value-mod_mul y y c.p h
        ∙ e
        ∙ sym (
            value-mod_add sum c.b c.p h
            ∙ ap (λ (n : ℕ). (n + law.value c.b) % p)
                (value-mod_add cube linear c.p h
                  ∙ ap₂ (λ (m n : ℕ). (m + n) % p)
                      (value-mod_mul square x c.p h
                        ∙ ap (λ (n : ℕ). (n * law.value x) % p) (value-mod_mul x x c.p h))
                      (value-mod_mul c.a x c.p h))))

  curve_of :
      (s : Parameters) (a : ℕ)
      → a + 3 ≡ s.p
      → 256 ^ 31 ≤ s.p
      → s.p < 256 ^ 32
      → Equation s.p a s.b s.x s.y
      → IsCurveOf s (new_curve N (N.of s.p) (N.of a) (N.of s.b) (N.of s.q) (N.of s.x) (N.of s.y))
  unfolding new_curve generator
  curve_of s a three low high e =
      let p = law.value-of s.p in
      let known = law.value-of in
      record {
        p = p;
        a = ap (λ (n : ℕ). n + 3) (known a) ∙ three;
        b = known s.b;
        q = known s.q;
        gx = known s.x;
        gy = known s.y;
        width = law.length_be (N.of s.p) 31 (rw p low) (rw p high);
        base =
            on_curve_of
              (new_curve N (N.of s.p) (N.of a) (N.of s.b) (N.of s.q) (N.of s.x) (N.of s.y))
              (N.of s.x) (N.of s.y) (omega (arith, p, low))
              (rw (p, known a, known s.b, known s.x, known s.y) e);
      }

  pub set_b : IsCurveOf standard_b (tc26_256_paramset_b N)
  unfolding tc26_256_paramset_b
  set_b =
      curve_of standard_b 0xFFFFFFFFFFFFFFFFFFFFFFFFFFFFFFFFFFFFFFFFFFFFFFFFFFFFFFFFFFFFFD94 refl
        (omega arith) (omega arith) refl

  pub set_c : IsCurveOf standard_c (tc26_256_paramset_c N)
  unfolding tc26_256_paramset_c
  set_c =
      curve_of standard_c 0x8000000000000000000000000000000000000000000000000000000000000C96 refl
        (omega arith) (omega arith) refl

  pub set_d : IsCurveOf standard_d (tc26_256_paramset_d N)
  unfolding tc26_256_paramset_d
  set_d =
      curve_of standard_d 0x9B9F605F5A858107AB1EC85E6B41C8AACF846E86789051D37998F7B9022D7598 refl
        (omega arith) (omega arith) refl

  pub order_of : (c : Curve N) → IsKnown c → 1 < law.value c.q
  order_of c (inl k) = omega (arith, k.q)
  order_of c (inr (inl k)) = omega (arith, k.q)
  order_of c (inr (inr k)) = omega (arith, k.q)
