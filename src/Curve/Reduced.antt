-- ===== src/Curve/Reduced.antt =====
-- Every coordinate that the group operations compute is reduced.
use crypto_kiddie.Prelude.{
  ℕ, zero, suc, ◌≤◌, ◌<◌, arith, Bool, true, false, if◌then◌else◌, Bool-cases, inl, inr,
}
use crypto_kiddie.Curve.Numbers.{BigUint, IsNatural}
use crypto_kiddie.Curve.{
  Curve, Point, infinity, affine, mod_sub, from_lambda, from_lambda2, double, add, bit_loop,
  scalar_mul,
}

module _ (N : BigUint) (law : IsNatural N) where
  mod_sub-lt : (a b p : N.Int) → 0 < law.value p → law.value (mod_sub N a b p) < law.value p
  unfolding mod_sub
  mod_sub-lt a b p h =
      let a' = N.rem a p in
      let b' = N.rem b p in
      let ea = law.value-rem a p h in
      let eb = law.value-rem b p h in
      let sum = law.value-plus a' p in
      let below_a : law.value a' < law.value p = omega (arith, ea) in
      let below_b : law.value b' < law.value p = omega (arith, eb) in
      elim (Bool-cases (N.lt a' b')) [
        | inl less ↦
            let lt = (law.lt_iff a' b').0 less in
            let value = law.value-sub (N.plus a' p) b' (omega arith) in rw less (omega arith)
        | inr more ↦
            let no : ¬ (law.value a' < law.value b') =
              λ lt. let less = (law.lt_iff a' b').1 lt in cc in
            let ge : law.value b' ≤ law.value a' = omega arith in
            let value = law.value-sub a' b' ge in rw more (omega arith)
      ]

  -- Every coordinate of a point is reduced.
  abbrev pub IsReduced : Curve N → Point N → Type 0
  IsReduced c infinity = Unit
  IsReduced c (affine x y) = (law.value x < law.value c.p) × (law.value y < law.value c.p)

  module _ (c : Curve N) (modulus : 0 < law.value c.p) where
    from_lambda-IsReduced :
        (lambda xa ya xb : N.Int) → IsReduced c (from_lambda N c lambda xa ya xb)
    unfolding from_lambda
    from_lambda-IsReduced lambda xa ya xb =
        (mod_sub-lt _ xb c.p modulus, mod_sub-lt _ ya c.p modulus)

    from_lambda2-IsReduced :
        (lambda xa ya xb : N.Int) → IsReduced c (from_lambda2 N c lambda xa ya xb)
    unfolding from_lambda2
    from_lambda2-IsReduced lambda xa ya xb =
        (mod_sub-lt _ xb c.p modulus, mod_sub-lt _ ya c.p modulus)

    if-IsReduced :
        (b : Bool) (p r : Point N)
        → IsReduced c p
        → IsReduced c r
        → IsReduced c (if b then p else r)
    if-IsReduced true p r h k = h
    if-IsReduced false p r h k = k

    double-IsReduced : (p : Point N) → IsReduced c (double N c p)
    unfolding double
    double-IsReduced infinity = tt
    double-IsReduced (affine x y) =
        if-IsReduced (N.is_zero y) infinity _ tt (from_lambda-IsReduced _ x y x)

    add-IsReduced : (p r : Point N) → IsReduced c p → IsReduced c r → IsReduced c (add N c p r)
    unfolding add
    add-IsReduced infinity r h k = k
    add-IsReduced (affine x y) infinity h k = h
    add-IsReduced (affine x1 y1) (affine x2 y2) h k =
        if-IsReduced (N.eq x1 x2) _ _
          (if-IsReduced (N.eq y1 y2) (double N c (affine x1 y1)) infinity
            (double-IsReduced (affine x1 y1)) tt)
          (from_lambda2-IsReduced _ x1 y1 x2)

    bit_loop-IsReduced :
        (k : N.Int) (point : Point N) (i : ℕ) (result : Point N)
        → IsReduced c point
        → IsReduced c result
        → IsReduced c (bit_loop N c k point i result)
    unfolding bit_loop
    bit_loop-IsReduced k point zero result h r = r
    bit_loop-IsReduced k point (suc i) result h r =
        let doubled = double N c result in
        let reduced = double-IsReduced result in
        bit_loop-IsReduced k point i (if N.bit k i then add N c doubled point else doubled) h (
          if-IsReduced (N.bit k i) (add N c doubled point) doubled
            (add-IsReduced doubled point reduced h) reduced)

    -- A multiple of a point whose coordinates are below the modulus has coordinates below the
    -- modulus, whatever the scalar is.
    pub scalar_mul-IsReduced :
        (k : N.Int) (point : Point N) → IsReduced c point → IsReduced c (scalar_mul N c k point)
    unfolding scalar_mul
    scalar_mul-IsReduced k point h =
        if-IsReduced (N.is_zero k) infinity _ tt
          (bit_loop-IsReduced k point (N.bits k) infinity h tt)
