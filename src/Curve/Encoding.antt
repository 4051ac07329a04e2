-- ===== src/Curve/Encoding.antt =====
-- The bytes of a point.
use crypto_kiddie.Prelude.{
  ℕ, zero, suc, ◌*◌, ◌-◌, ◌^◌, ◌≤◌, ◌<◌, ◌≡◌, refl, sym, ap, ◌∙◌, arith, List, [], ◌∷◌, ◌++◌, true,
  length, length-append, length-replicate, take-all, take-append, drop-append, replicate, le_value,
  IsBytes, All-append, eq→==, some,
}
use crypto_kiddie.Curve.Numbers.{BigUint, IsNatural}
use crypto_kiddie.Curve.{
  Curve, affine, is_on_curve, encode_coord_le, encode_point_le, decode_point_le,
}
use crypto_kiddie.Curve.Reduced.{IsReduced}

le_value-zeros : (bs : List ℕ) (n : ℕ) → le_value (bs ++ replicate n 0) ≡ le_value bs
le_value-zeros [] zero = refl
le_value-zeros [] (suc n) = omega (arith, le_value-zeros [] n)
le_value-zeros (b ∷ bs) n = omega (arith, le_value-zeros bs n)

zeros-IsBytes : (n : ℕ) → IsBytes (replicate n 0)
zeros-IsBytes zero = tt
zeros-IsBytes (suc n) = (omega arith, zeros-IsBytes n)

module _ (N : BigUint) (law : IsNatural N) (c : Curve N) (wide : 0 < c.field_bytes) where
  -- The number's own bytes, with zeros behind them.
  encode_coord_lem :
      (x : N.Int)
      → law.value x < 256 ^ c.field_bytes
      → encode_coord_le N c x
        ≡ N.to_bytes_le x ++ replicate (c.field_bytes - length (N.to_bytes_le x)) 0
  unfolding encode_coord_le
  encode_coord_lem x h =
      rw (take-all c.field_bytes (N.to_bytes_le x) (law.length_le x c.field_bytes wide h)) refl

  length-encode_coord :
      (x : N.Int)
      → law.value x < 256 ^ c.field_bytes
      → length (encode_coord_le N c x) ≡ c.field_bytes
  length-encode_coord x h =
      let le = N.to_bytes_le x in
      let fits = law.length_le x c.field_bytes wide h in
      omega (
        arith,
        ap length (encode_coord_lem x h),
        length-append le (replicate (c.field_bytes - length le) 0),
        length-replicate {A = ℕ} (c.field_bytes - length le) 0,
      )

  from_bytes-encode_coord :
      (x : N.Int) → law.value x < 256 ^ c.field_bytes → N.from_bytes_le (encode_coord_le N c x) ≡ x
  from_bytes-encode_coord x h =
      let le = N.to_bytes_le x in
      let zeros = replicate (c.field_bytes - length le) 0 in
      let bytes : IsBytes (le ++ zeros) =
        All-append _ le zeros (law.bytes_le x) (zeros-IsBytes _) in
      ap N.from_bytes_le (encode_coord_lem x h)
      ∙ law.value_injective (N.from_bytes_le (le ++ zeros)) x (
          law.value-from_le (le ++ zeros) bytes
          ∙ le_value-zeros le (c.field_bytes - length le)
          ∙ law.value-le x)

  module _ (x y : N.Int) (reduced : IsReduced N law c (affine x y))
      (fits : law.value c.p ≤ 256 ^ c.field_bytes) where
    abbrev both : List ℕ
    both = encode_coord_le N c x ++ encode_coord_le N c y

    length-both : length both ≡ 2 * c.field_bytes
    length-both = omega (
      arith,
      length-append (encode_coord_le N c x) (encode_coord_le N c y),
      length-encode_coord x (omega (arith, reduced.0)),
      length-encode_coord y (omega (arith, reduced.1)),
    )

    decode_both : is_on_curve N c (affine x y) ≡ true → decode_point_le N c both ≡ some (affine x y)
    unfolding decode_point_le
    decode_both on =
        let cx = encode_coord_le N c x in
        let cy = encode_coord_le N c y in
        let size = sym (length-encode_coord x (omega (arith, reduced.0))) in
        rw
          (
            eq→== (length both) (2 * c.field_bytes) length-both,
            take-append cx cy c.field_bytes size,
            drop-append cx cy c.field_bytes size,
            from_bytes-encode_coord x (omega (arith, reduced.0)),
            from_bytes-encode_coord y (omega (arith, reduced.1)),
            on,
          )
          refl

  -- A point of the curve is read back from its bytes, which are two coordinates of the curve's
  -- width, where its coordinates are below the modulus and the modulus fits the width.
  pub decode_point_le-encode_point_le :
      (x y : N.Int)
      → IsReduced N law c (affine x y)
      → law.value c.p ≤ 256 ^ c.field_bytes
      → is_on_curve N c (affine x y) ≡ true
      → (bytes : List ℕ) × (encode_point_le N c (affine x y) ≡ some bytes)
        × (length bytes ≡ 2 * c.field_bytes)
        × (decode_point_le N c bytes ≡ some (affine x y))
  unfolding encode_point_le
  decode_point_le-encode_point_le x y reduced fits on =
      (both x y reduced fits, refl, length-both x y reduced fits, decode_both x y reduced fits on)
