-- ===== src/Tests/CurveRuns.antt =====
-- The curve and the key transport at concrete points, over the natural numbers.
use crypto_kiddie.Prelude.{
  ℕ, ◌-◌, le_value, ◌≡◌, refl, arith, List, [], ◌∷◌, ◌++◌, Option, none, some, length, replicate,
  le_bytes, true,
}
use crypto_kiddie.Curve.{
  Curve, Point, infinity, affine, is_on_curve, scalar_mul, encode_point_le, decode_point_le,
}
use crypto_kiddie.Curve.Scalars.{times, scalar_mul-times}
use crypto_kiddie.Curve.Reduced.{IsReduced, scalar_mul-IsReduced}
use crypto_kiddie.Curve.Encoding.{decode_point_le-encode_point_le}
use crypto_kiddie.Login.Driver.{KeyTransport}
use crypto_kiddie.Curve.Agreement.{software_key_transport}
use crypto_kiddie.Curve.Agreement.Prepared.{Prepared, software_key_transport-Prepared}
use crypto_kiddie.Tests.Naturals.{naturals, naturals-IsNatural}

-- A curve of 13 points.
abbrev small : Curve naturals
small = record { p = 11; a = 1; b = 6; q = 13; gx = 2; gy = 7; field_bytes = 1 }

abbrev start_point : Point naturals
start_point = affine 2 7

seven_times : scalar_mul naturals small 7 start_point ≡ affine 7 2
unfolding scalar_mul
seven_times = refl

order_times : scalar_mul naturals small 13 start_point ≡ infinity
unfolding scalar_mul
order_times = refl

scalar_mul-times_example :
    scalar_mul naturals small 7 start_point
    ≡ times naturals naturals-IsNatural small start_point 5 7
scalar_mul-times_example =
    scalar_mul-times naturals naturals-IsNatural small start_point 7 5 (omega arith)

scalar_mul-IsReduced_example :
    IsReduced naturals naturals-IsNatural small (scalar_mul naturals small 7 start_point)
scalar_mul-IsReduced_example =
    scalar_mul-IsReduced naturals naturals-IsNatural small (omega arith) 7 start_point
      (omega arith, omega arith)

point_on_curve : is_on_curve naturals small start_point ≡ true
unfolding is_on_curve
point_on_curve = refl

decode_point_le-encode_point_le_example :
    (bytes : List ℕ) × (encode_point_le naturals small start_point ≡ some bytes)
    × (length bytes ≡ 2)
    × (decode_point_le naturals small bytes ≡ some start_point)
decode_point_le-encode_point_le_example =
    decode_point_le-encode_point_le naturals naturals-IsNatural small (omega arith) 2 7
      (omega arith, omega arith) (omega arith) point_on_curve

-- The base point of the parameter set B as the server's point, and a source that draws 2.
abbrev toy_hash : List ℕ → List ℕ
toy_hash m = le_bytes 32 (le_value m)

abbrev server_point : List ℕ
server_point =
    le_bytes 32 1 ++ le_bytes 32 0x8D91E471E0989CDA27DF505A453F2B7635294F2DDF23E3B122ACC99C9E9F1E14

abbrev draw : ℕ → Option (List ℕ)
draw n = some (replicate (n - 1) 0 ++ (2 ∷ []))

abbrev transported : Option KeyTransport
transported = software_key_transport naturals toy_hash draw server_point (0x30 ∷ 0 ∷ []) (3 ∷ [])

abbrev kt : KeyTransport
kt = elim transported [ some made ↦ made | none ↦ record { kek = []; ephemeral_spki_content = [] } ]

made_kt : transported ≡ some kt
unfolding software_key_transport
made_kt = refl

software_key_transport-Prepared_example :
    Prepared naturals naturals-IsNatural toy_hash draw server_point (0x30 ∷ 0 ∷ []) (3 ∷ []) kt
software_key_transport-Prepared_example =
    software_key_transport-Prepared naturals naturals-IsNatural toy_hash draw server_point
      (0x30 ∷ 0 ∷ []) (3 ∷ []) kt made_kt
