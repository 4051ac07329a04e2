-- ===== src/Prelude/Chunks.antt =====
-- `chunks_exact(n)` of a slice and its `remainder()`.
use Prim.Native.Nat.{ℕ, zero, suc, ◌+◌, ◌*◌, ◌/◌, ◌%◌, ◌≤◌, ◌<◌}
use mathlib.Core.Path.{◌≡◌, refl, sym, ap, ap₂, ◌∙◌, subst}
use mathlib.Core.List.{List, [], ◌∷◌, ◌++◌, flatten, append_assoc}
use native.Mathlib.Omega.{arith}
use crypto_kiddie.Prelude.Lists.{
  length, take, drop, All, length-append, length-take, length-drop, take-append, drop-append,
  take-append-drop, drop-drop, All-left, All-right,
}
use crypto_kiddie.Prelude.Tests.{Bool-cases, ltb, ltb→lt, ltb→le}
use mathlib.Core.Logic.{inl, inr}

module _ {ℓ} {A : Type ℓ} where
  -- The first `k` pieces of `s` elements.
  abbrev pub chunks : ℕ → ℕ → List A → List (List A)
  chunks s zero xs = []
  chunks s (suc k) xs = take s xs ∷ chunks s k (drop s xs)

  unfoldable pub chunks_exact : ℕ → List A → List (List A)
  chunks_exact s xs = chunks s (length xs / s) xs

  unfoldable pub remainder : ℕ → List A → List A
  remainder s xs = drop (length xs / s * s) xs

  pub chunks_exact-short : (xs : List A) → length xs < 8 → chunks_exact 8 xs ≡ []
  unfolding chunks_exact
  chunks_exact-short xs h = ap (λ (k : ℕ). chunks 8 k xs) {y = 0} (omega arith)

  pub remainder-short : (xs : List A) → length xs < 8 → remainder 8 xs ≡ xs
  unfolding remainder
  remainder-short xs h = ap (λ (k : ℕ). drop k xs) {y = 0} (omega arith)

  pub length-remainder : (xs : List A) → length (remainder 8 xs) ≡ length xs % 8
  unfolding remainder
  length-remainder xs = length-drop _ xs ∙ omega arith

  count_cons : (a b : List A) → length a ≡ 8 → length (a ++ b) / 8 ≡ suc (length b / 8)
  count_cons a b h = omega (arith, length-append a b)

  pub chunks_exact-cons :
      (a b : List A) → length a ≡ 8 → chunks_exact 8 (a ++ b) ≡ a ∷ chunks_exact 8 b
  unfolding chunks_exact
  chunks_exact-cons a b h =
      ap (λ (k : ℕ). chunks 8 k (a ++ b)) (count_cons a b h)
      ∙ ap₂ (λ (x : List A) (y : List A). x ∷ chunks 8 (length b / 8) y) (take-append a b 8 (sym h))
          (drop-append a b 8 (sym h))

  pub remainder-cons : (a b : List A) → length a ≡ 8 → remainder 8 (a ++ b) ≡ remainder 8 b
  unfolding remainder
  remainder-cons a b h =
      ap (λ (k : ℕ). drop k (a ++ b)) {y = 8 + length b / 8 * 8} (omega (arith, count_cons a b h))
      ∙ sym (drop-drop (length b / 8 * 8) 8 (a ++ b))
      ∙ ap (drop (length b / 8 * 8)) (drop-append a b 8 (sym h))

  -- Induction over whole blocks of eight, with a short rest at the end.
  module _ {κ} (P : List A → Type κ) (short : (xs : List A) → length xs < 8 → P xs)
      (block : (a b : List A) → length a ≡ 8 → P b → P (a ++ b)) where
    induction_fuel : (n : ℕ) (xs : List A) → length xs < n → P xs
    induction_fuel zero xs h = absurd (omega arith)
    induction_fuel (suc n) xs h = elim (Bool-cases (ltb (length xs) 8)) [
      | inl few ↦ short xs (ltb→lt _ _ few)
      | inr many ↦
          let long : 8 ≤ length xs = ltb→le _ _ many in
          subst P (take-append-drop 8 xs) (
            block (take 8 xs) (drop 8 xs) (length-take 8 xs long)
              (induction_fuel n (drop 8 xs) (omega (arith, length-drop 8 xs))))
    ]

    pub block_induction : (xs : List A) → P xs
    block_induction xs = induction_fuel (suc (length xs)) xs (omega arith)

  pub chunks_exact-append :
      (ys xs : List A)
      → chunks_exact 8 (xs ++ ys) ≡ chunks_exact 8 xs ++ chunks_exact 8 (remainder 8 xs ++ ys)
  chunks_exact-append ys =
      block_induction
        (λ xs.
          chunks_exact 8 (xs ++ ys) ≡ chunks_exact 8 xs ++ chunks_exact 8 (remainder 8 xs ++ ys))
        (λ xs h. rw (chunks_exact-short xs h, remainder-short xs h))
        λ a b h ih.
          rw
            (
              append_assoc a b ys,
              chunks_exact-cons a (b ++ ys) h,
              chunks_exact-cons a b h,
              remainder-cons a b h,
            )
            (ap (λ (t : List (List A)). a ∷ t) ih)

  pub remainder-append :
      (ys xs : List A) → remainder 8 (xs ++ ys) ≡ remainder 8 (remainder 8 xs ++ ys)
  remainder-append ys =
      block_induction (λ xs. remainder 8 (xs ++ ys) ≡ remainder 8 (remainder 8 xs ++ ys))
        (λ xs h. rw (remainder-short xs h))
        λ a b h ih. rw (append_assoc a b ys, remainder-cons a (b ++ ys) h, remainder-cons a b h) ih

  pub All-chunks_exact {κ} :
      (P : A → Type κ) (xs : List A)
      → All P xs
      → All (λ c. (length c ≡ 8) × All P c) (chunks_exact 8 xs)
  All-chunks_exact P =
      block_induction (λ xs. All P xs → All (λ c. (length c ≡ 8) × All P c) (chunks_exact 8 xs))
        (λ xs h k. rw (chunks_exact-short xs h) tt)
        λ a b h ih k. rw (chunks_exact-cons a b h) ((h, All-left P a b k), ih (All-right P a b k))

  -- The blocks, put together again, are the slice where it has no remainder.
  pub flatten-chunks_exact : (xs : List A) → flatten (chunks_exact 8 xs) ++ remainder 8 xs ≡ xs
  unfolding flatten
  flatten-chunks_exact =
      block_induction (λ xs. flatten (chunks_exact 8 xs) ++ remainder 8 xs ≡ xs)
        (λ xs h. rw (chunks_exact-short xs h, remainder-short xs h))
        λ a b h ih. rw (chunks_exact-cons a b h, remainder-cons a b h, append_assoc, ih)

  length-chunks : (s k : ℕ) (xs : List A) → length (chunks s k xs) ≡ k
  length-chunks s zero xs = refl
  length-chunks s (suc k) xs = ap suc (length-chunks s k (drop s xs))

  pub length-chunks_exact : (xs : List A) → length (chunks_exact 8 xs) ≡ length xs / 8
  unfolding chunks_exact
  length-chunks_exact xs = length-chunks 8 (length xs / 8) xs
