-- ===== src/Card/Points.antt =====
-- The byte order of a public point on the token.
use crypto_kiddie.Prelude.{
  ℕ, ◌*◌, ◌/◌, ◌≤◌, ◌≡◌, refl, sym, arith, List, [], ◌∷◌, ◌++◌, length, flatten, reverse,
  append-nil, eq→==, ne→==, chunks_exact, take-append, drop-append, take-all, length-append, ok,
}
use native.Mathlib.Nat.{mul-div_right}
use crypto_kiddie.Card.Rutoken.{pubkey_to_token_point}

half_count : (c : ℕ) → 1 ≤ c → (c * 2) / c ≡ 2
half_count c h = mul-div_right 2 h

two_halves :
    (c : ℕ) (x y : List ℕ)
    → 1 ≤ c
    → length x ≡ c
    → length y ≡ c
    → chunks_exact c (x ++ y) ≡ x ∷ y ∷ []
unfolding chunks_exact
two_halves c x y h p q =
    let size : length (x ++ y) ≡ c * 2 = omega (arith, length-append x y) in
    rw
      (
        size,
        half_count c h,
        take-append x y c (sym p),
        drop-append x y c (sym p),
        take-all c y (omega arith),
      )
      refl

-- A public point of two coordinates is turned into the token's order: each coordinate is reversed
-- by itself and they stay where they are.
pub pubkey_to_token_point-reverse :
    (c : ℕ) (x y : List ℕ)
    → 1 ≤ c
    → length x ≡ c
    → length y ≡ c
    → pubkey_to_token_point (x ++ y) c ≡ ok (reverse x ++ reverse y)
unfolding pubkey_to_token_point flatten
pubkey_to_token_point-reverse c x y h p q =
    let size : length (x ++ y) ≡ c * 2 = omega (arith, length-append x y) in
    rw
      (
        ne→== c 0 (λ e. omega arith),
        eq→== (length (x ++ y)) (c * 2) size,
        two_halves c x y h p q,
        append-nil (reverse y),
      )
      refl
