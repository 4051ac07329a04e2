-- ===== src/Curve/Agreement/Detected.antt =====
-- The curve and the scalar of a key transport.
use crypto_kiddie.Prelude.{
  ℕ, ◌<◌, ◌≡◌, refl, subst, ap, ◌∙◌, arith, List, [], ◌∷◌, All, Option-cases, Bool-cases, inl, inr,
  true, if◌then◌else◌, Option, none, some, some_injective,
}
use crypto_kiddie.Curve.Numbers.{BigUint, IsNatural}
use crypto_kiddie.Curve.ParameterSets.{IsKnown, set_b, set_c, set_d}
use crypto_kiddie.Curve.{
  Curve, Point, decode_point_le, is_on_curve, tc26_256_paramset_b, tc26_256_paramset_c,
  tc26_256_paramset_d,
}
use crypto_kiddie.Curve.Agreement.{bind, detect_in, detect_curve_and_point}

pub bind-some :
    {A B : Type 0} (o : Option A) (k : A → Option B) (b : B)
    → bind o k ≡ some b
    → (a : A) × (o ≡ some a) × (k a ≡ some b)
bind-some none k b e = absurd cc
bind-some (some a) k b e = (a, refl, e)

module _ (N : BigUint) (law : IsNatural N) (streebog256 : List ℕ → List ℕ) where
  -- A private scalar of the group of order `q`.
  abbrev pub IsScalar : N.Int → N.Int → Type 0
  IsScalar d q = (0 < law.value d) × (law.value d < law.value q)

  pub drawn-IsScalar :
      (k q : N.Int)
      → 1 < law.value q
      → IsScalar (let d = N.rem k q in if N.is_zero d then N.of 1 else d) q
  drawn-IsScalar k q h =
      let d = N.rem k q in
      let e = law.value-rem k q (omega arith) in
      elim (Bool-cases (N.is_zero d)) [
        | inl is ↦ let one = law.value-of 1 in rw is (omega arith, omega arith)
        | inr isnt ↦
            let no : ¬ (law.value d ≡ 0) = λ z. let is = (law.is_zero_iff d).1 z in cc in
            rw isnt (omega arith, omega (arith, e))
      ]

  pub decoded-on_curve :
      (curve : Curve N) (bytes : List ℕ) (point : Point N)
      → decode_point_le N curve bytes ≡ some point
      → is_on_curve N curve point ≡ true
  unfolding decode_point_le
  decoded-on_curve curve bytes point e = ground arith

  -- The curve that is found is one of those tried, and the server's point lies on it.
  detect_in-decoded :
      (curves : List (Curve N)) (bytes : List ℕ) (curve : Curve N) (point : Point N)
      → All (IsKnown N law) curves
      → detect_in N streebog256 curves bytes ≡ some (curve, point)
      → IsKnown N law curve × (decode_point_le N curve bytes ≡ some point)
  unfolding detect_in
  detect_in-decoded [] bytes curve point known e = absurd cc
  detect_in-decoded (c ∷ curves) bytes curve point known e =
      elim (Option-cases (decode_point_le N c bytes)) [
        | inl missed ↦
            detect_in-decoded curves bytes curve point known.1 (rw (detect_in, missed) at e)
        | inr (p, is) ↦
            let same = some_injective (rw (detect_in, is) at e) in
            let c_is : c ≡ curve = ap (λ (x : Curve N × Point N). x.0) same in
            let p_is : p ≡ point = ap (λ (x : Curve N × Point N). x.1) same in
            (
              subst (IsKnown N law) c_is known.0,
              subst (λ (x : Curve N). decode_point_le N x bytes ≡ some point) c_is
                  (is ∙ ap (λ (x : Point N). let o : Option (Point N) = some x in o) p_is),
            )
      ]

  pub detect-decoded :
      (bytes : List ℕ) (curve : Curve N) (point : Point N)
      → detect_curve_and_point N streebog256 bytes ≡ some (curve, point)
      → IsKnown N law curve × (decode_point_le N curve bytes ≡ some point)
  unfolding detect_curve_and_point
  detect-decoded bytes curve point e =
      detect_in-decoded (tc26_256_paramset_b N ∷ tc26_256_paramset_c N ∷ tc26_256_paramset_d N ∷ [])
        bytes curve point
        (inl (set_b N law), (inr (inl (set_c N law)), (inr (inr (set_d N law)), tt))) e
