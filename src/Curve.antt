-- ===== src/Curve.antt =====
-- src/gost_ec.rs: points of a curve in short Weierstrass form, over the numbers of `num-bigint`,
-- which are an argument.
pub mod Numbers
pub mod Agreement
pub mod ParameterSets
pub mod Reduced
pub mod Scalars
pub mod Encoding
use crypto_kiddie.Prelude.{
  ℕ, zero, suc, ◌+◌, ◌*◌, ◌-◌, List, [], ◌∷◌, ◌++◌, Bool, true, false, ◌&&◌, ◌||◌, not,
  if◌then◌else◌, ltb, ◌==◌, Option, none, some, length, take, drop, replicate,
}
use crypto_kiddie.Curve.Numbers.{BigUint}

-- `==` of two slices.
unfoldable pub eq_arcs : List ℕ → List ℕ → Bool
eq_arcs [] [] = true
eq_arcs [] (y ∷ ys) = false
eq_arcs (x ∷ xs) [] = false
eq_arcs (x ∷ xs) (y ∷ ys) = (x == y) && eq_arcs xs ys

module _ (N : BigUint) where
  unfoldable pub mod_add : N.Int → N.Int → N.Int → N.Int
  mod_add a b p = N.rem (N.plus a b) p

  -- `a >= b` is the negation of `a < b`.
  unfoldable pub mod_sub : N.Int → N.Int → N.Int → N.Int
  mod_sub a b p =
      let a' = N.rem a p in
      let b' = N.rem b p in if N.lt a' b' then N.sub (N.plus a' p) b' else N.sub a' b'

  unfoldable pub mod_mul : N.Int → N.Int → N.Int → N.Int
  mod_mul a b p = N.rem (N.mul a b) p

  unfoldable pub mod_inv : N.Int → N.Int → N.Int
  mod_inv a p = N.modpow a (N.sub p (N.of 2)) p

  pub record Curve : Type 0 where
    pub p : N.Int
    pub a : N.Int
    pub b : N.Int
    pub q : N.Int
    pub gx : N.Int
    pub gy : N.Int
    pub field_bytes : ℕ

  pub data Point : Type 0 where
    infinity : Point
    affine : N.Int → N.Int → Point

  unfoldable pub new_curve : N.Int → N.Int → N.Int → N.Int → N.Int → N.Int → Curve
  new_curve p a b q gx gy = record {
    p = p;
    a = a;
    b = b;
    q = q;
    gx = gx;
    gy = gy;
    field_bytes = length (N.to_bytes_be p);
  }

  module _ (c : Curve) where
    unfoldable pub generator : Point
    generator = affine c.gx c.gy

    unfoldable pub is_on_curve : Point → Bool
    unfolding mod_mul mod_add
    is_on_curve infinity = true
    is_on_curve (affine x y) =
        let lhs = mod_mul y y c.p in
        let x3 = mod_mul (mod_mul x x c.p) x c.p in
        let ax = mod_mul c.a x c.p in let rhs = mod_add (mod_add x3 ax c.p) c.b c.p in N.eq lhs rhs

    unfoldable pub from_lambda : N.Int → N.Int → N.Int → N.Int → Point
    unfolding mod_mul mod_sub
    from_lambda lambda xa ya xb =
        let l2 = mod_mul lambda lambda c.p in
        let x3 = mod_sub (mod_sub l2 xa c.p) xb c.p in
        let y3 = mod_sub (mod_mul lambda (mod_sub xa x3 c.p) c.p) ya c.p in affine x3 y3

    unfoldable pub from_lambda2 : N.Int → N.Int → N.Int → N.Int → Point
    unfolding mod_mul mod_sub
    from_lambda2 lambda x1 y1 x2 =
        let l2 = mod_mul lambda lambda c.p in
        let x3 = mod_sub (mod_sub l2 x1 c.p) x2 c.p in
        let y3 = mod_sub (mod_mul lambda (mod_sub x1 x3 c.p) c.p) y1 c.p in affine x3 y3

    unfoldable pub double : Point → Point
    unfolding from_lambda mod_inv mod_add
    double infinity = infinity
    double (affine x y) =
        let x2 = mod_mul x x c.p in
        let num = mod_add (mod_mul (N.of 3) x2 c.p) c.a c.p in
        let den = mod_mul (N.of 2) y c.p in
        let lambda = mod_mul num (mod_inv den c.p) c.p in
        if N.is_zero y then infinity else from_lambda lambda x y x

    unfoldable pub add : Point → Point → Point
    unfolding double from_lambda2
    add infinity b = b
    add (affine x1 y1) infinity = affine x1 y1
    add (affine x1 y1) (affine x2 y2) =
        let num = mod_sub y2 y1 c.p in
        let den = mod_sub x2 x1 c.p in
        let lambda = mod_mul num (mod_inv den c.p) c.p in
        if N.eq x1 x2
        then (if N.eq y1 y2 then double (affine x1 y1) else infinity)
        else from_lambda2 lambda x1 y1 x2

    -- The loop of `scalar_mul` over the bits below `bits`, from the most significant one down.
    unfoldable pub bit_loop : N.Int → Point → ℕ → Point → Point
    unfolding add
    bit_loop k point zero result = result
    bit_loop k point (suc i) result =
        let doubled = double result in
        bit_loop k point i (if N.bit k i then add doubled point else doubled)

    unfoldable pub scalar_mul : N.Int → Point → Point
    unfolding bit_loop
    scalar_mul k point = if N.is_zero k then infinity else bit_loop k point (N.bits k) infinity

    -- `resize` cuts or pads with zeros.
    unfoldable pub encode_coord_le : N.Int → List ℕ
    encode_coord_le value =
        let le = N.to_bytes_le value in
        take c.field_bytes le ++ replicate (c.field_bytes - length le) 0

    unfoldable pub encode_point_le : Point → Option (List ℕ)
    unfolding encode_coord_le
    encode_point_le infinity = none
    encode_point_le (affine x y) = some (encode_coord_le x ++ encode_coord_le y)

    unfoldable pub decode_point_le : List ℕ → Option Point
    unfolding is_on_curve
    decode_point_le bytes =
        let x = N.from_bytes_le (take c.field_bytes bytes) in
        let y = N.from_bytes_le (drop c.field_bytes bytes) in
        if length bytes == 2 * c.field_bytes
        then (if is_on_curve (affine x y) then some (affine x y) else none)
        else none

  unfoldable pub scalar_from_bytes_be : List ℕ → N.Int → N.Int
  scalar_from_bytes_be bytes q =
      let k = N.rem (N.from_bytes_be bytes) q in if N.is_zero k then N.of 1 else k

  unfoldable pub is_valid_scalar : N.Int → N.Int → Bool
  is_valid_scalar value q = (not (N.is_zero value) && N.lt value q) && N.eq (N.gcd value q) (N.of 1)

  -- A hexadecimal constant is the number that it writes.
  unfoldable pub tc26_256_paramset_b : Curve
  unfolding new_curve
  tc26_256_paramset_b =
      new_curve (N.of 0xFFFFFFFFFFFFFFFFFFFFFFFFFFFFFFFFFFFFFFFFFFFFFFFFFFFFFFFFFFFFFD97)
        (N.of 0xFFFFFFFFFFFFFFFFFFFFFFFFFFFFFFFFFFFFFFFFFFFFFFFFFFFFFFFFFFFFFD94) (N.of 0xA6)
        (N.of 0xFFFFFFFFFFFFFFFFFFFFFFFFFFFFFFFF6C611070995AD10045841B09B761B893) (N.of 0x1)
        (N.of 0x8D91E471E0989CDA27DF505A453F2B7635294F2DDF23E3B122ACC99C9E9F1E14)

  unfoldable pub tc26_256_paramset_c : Curve
  unfolding new_curve
  tc26_256_paramset_c =
      new_curve (N.of 0x8000000000000000000000000000000000000000000000000000000000000C99)
        (N.of 0x8000000000000000000000000000000000000000000000000000000000000C96)
        (N.of 0x3E1AF419A269A5F866A7D3C25C3DF80AE979259373FF2B182F49D4CE7E1BBC8B)
        (N.of 0x800000000000000000000000000000015F700CFFF1A624E5E497161BCC8A198F) (N.of 0x1)
        (N.of 0x3FA8124359F96680B83D1C3EB2C070E5C545C9858D03ECFB744BF8D717717EFC)

  unfoldable pub tc26_256_paramset_d : Curve
  unfolding new_curve
  tc26_256_paramset_d =
      new_curve (N.of 0x9B9F605F5A858107AB1EC85E6B41C8AACF846E86789051D37998F7B9022D759B)
        (N.of 0x9B9F605F5A858107AB1EC85E6B41C8AACF846E86789051D37998F7B9022D7598) (N.of 0x805A)
        (N.of 0x9B9F605F5A858107AB1EC85E6B41C8AA582CA3511EDDFB74F02F3A6598980BB9) (N.of 0x0)
        (N.of 0x41ECE55743711A8C3CBF3783CD08C0EE4D4DC440D4641A8F366E550DFDB3BB67)

  abbrev among : List ℕ → List (List ℕ) → Bool
  among oid [] = false
  among oid (known ∷ rest) = eq_arcs oid known || among oid rest

  -- The lists are the constants of the code: the sets A, XchA of 2001 and B of 2012, and so on.
  unfoldable pub curve_for_param_set : List ℕ → Option Curve
  unfolding eq_arcs tc26_256_paramset_b tc26_256_paramset_c tc26_256_paramset_d
  curve_for_param_set oid =
      if among oid (
        (1 ∷ 2 ∷ 643 ∷ 2 ∷ 2 ∷ 35 ∷ 1 ∷ [])
        ∷ (1 ∷ 2 ∷ 643 ∷ 2 ∷ 2 ∷ 36 ∷ 0 ∷ [])
        ∷ (1 ∷ 2 ∷ 643 ∷ 7 ∷ 1 ∷ 2 ∷ 1 ∷ 1 ∷ 1 ∷ [])
        ∷ [])
      then some tc26_256_paramset_b
      else (if among oid (
            (1 ∷ 2 ∷ 643 ∷ 2 ∷ 2 ∷ 35 ∷ 2 ∷ [])
            ∷ (1 ∷ 2 ∷ 643 ∷ 2 ∷ 2 ∷ 36 ∷ 1 ∷ [])
            ∷ (1 ∷ 2 ∷ 643 ∷ 7 ∷ 1 ∷ 2 ∷ 1 ∷ 1 ∷ 2 ∷ [])
            ∷ [])
          then some tc26_256_paramset_c
          else (if among oid (
                (1 ∷ 2 ∷ 643 ∷ 2 ∷ 2 ∷ 35 ∷ 3 ∷ [])
                ∷ (1 ∷ 2 ∷ 643 ∷ 7 ∷ 1 ∷ 2 ∷ 1 ∷ 1 ∷ 3 ∷ [])
                ∷ [])
              then some tc26_256_paramset_d
              else none))
