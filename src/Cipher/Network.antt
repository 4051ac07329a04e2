-- ===== src/Cipher/Network.antt =====
-- The Feistel network of src/gost28147.rs undone by itself with the subkeys reversed.
use crypto_kiddie.Prelude.{
  ℕ, zero, suc, ◌+◌, ◌%◌, ◌^◌, ◌≡◌, refl, ap, ◌∙◌, arith, List, [], ◌∷◌, ◌++◌, reverse,
  reverse-append, length, length-append, take, get_or, IsU32, xor_cancel, xor_lt, or_lt,
  rotate_left-IsU32,
}
use crypto_kiddie.Cipher.{substitute, g, round, rounds, feistel, sbox_z}

substitute-IsU32 :
    (rows : List (List ℕ)) (i s out : ℕ) → IsU32 out → IsU32 (substitute rows i s out)
unfolding substitute
substitute-IsU32 [] i s out h = h
substitute-IsU32 (row ∷ rows) i s out h =
    substitute-IsU32 rows (i + 1) s _ (or_lt 32 out _ h (omega arith))

pub g-IsU32 : (k a : ℕ) → IsU32 (g k a)
unfolding g
g-IsU32 k a =
    rotate_left-IsU32 (substitute sbox_z 0 ((a + k) % 2 ^ 32) 0)
      (substitute-IsU32 sbox_z 0 ((a + k) % 2 ^ 32) 0 (omega arith))

swap : ℕ × ℕ → ℕ × ℕ
swap s = (s.1, s.0)

abbrev pub IsWords : ℕ × ℕ → Type 0
IsWords s = IsU32 s.0 × IsU32 s.1

rounds-append : (ks ls : List ℕ) (s : ℕ × ℕ) → rounds (ks ++ ls) s ≡ rounds ls (rounds ks s)
unfolding rounds
rounds-append [] ls s = refl
rounds-append (k ∷ ks) ls s = rounds-append ks ls (round k s)

-- One round, undone by the same round between two swaps.
round-swap-round : (k : ℕ) (s : ℕ × ℕ) → round k (swap (round k s)) ≡ swap s
unfolding round swap
round-swap-round k s = ap (λ (t : ℕ). let r : ℕ × ℕ = (s.1, t) in r) (xor_cancel s.0 (g k s.1))

-- Holds of every list of subkeys, of any length.
rounds-reverse : (ks : List ℕ) (s : ℕ × ℕ) → rounds (reverse ks) (swap (rounds ks s)) ≡ swap s
unfolding rounds
rounds-reverse [] s = refl
rounds-reverse (k ∷ ks) s =
    ap (λ (t : List ℕ). rounds t (swap (rounds (k ∷ ks) s))) (reverse-append (k ∷ []) ks)
    ∙ rounds-append (reverse ks) (k ∷ []) _
    ∙ ap (round k) (rounds-reverse ks (round k s))
    ∙ round-swap-round k s

-- The last round has no swap: all the rounds, and a swap.
feistel-rounds_at :
    (n : ℕ) (ks : List ℕ) (s : ℕ × ℕ)
    → length ks ≡ suc n
    → round (get_or ks n 0) (rounds (take n ks) s) ≡ rounds ks s
unfolding rounds
feistel-rounds_at zero [] s h = absurd (omega arith)
feistel-rounds_at zero (k ∷ []) s h = refl
feistel-rounds_at zero (k ∷ l ∷ ks) s h = absurd (omega arith)
feistel-rounds_at (suc n) [] s h = absurd (omega arith)
feistel-rounds_at (suc n) (k ∷ ks) s h = feistel-rounds_at n ks (round k s) (omega arith)

feistel_last :
    (ks : List ℕ) (s : ℕ × ℕ) → feistel ks s ≡ swap (round (get_or ks 31 0) (rounds (take 31 ks) s))
unfolding feistel round swap
feistel_last ks s = refl

feistel-rounds : (ks : List ℕ) (s : ℕ × ℕ) → length ks ≡ 32 → feistel ks s ≡ swap (rounds ks s)
feistel-rounds ks s h = feistel_last ks s ∙ ap swap (feistel-rounds_at 31 ks s h)

pub length-reverse : (ks : List ℕ) → length (reverse ks) ≡ length ks
length-reverse [] = refl
length-reverse (k ∷ ks) =
    ap length (reverse-append (k ∷ []) ks)
    ∙ length-append (reverse ks) (k ∷ [])
    ∙ omega (arith, length-reverse ks)

-- The network with the subkeys reversed takes the network back.
pub feistel-reverse :
    (ks : List ℕ) (s : ℕ × ℕ) → length ks ≡ 32 → feistel (reverse ks) (feistel ks s) ≡ s
feistel-reverse ks s h =
    ap (feistel (reverse ks)) (feistel-rounds ks s h)
    ∙ feistel-rounds (reverse ks) _ (length-reverse ks ∙ h)
    ∙ ap swap (rounds-reverse ks s)
    ∙ unfold swap in refl

round-IsWords : (k : ℕ) (s : ℕ × ℕ) → IsWords s → IsWords (round k s)
unfolding round
round-IsWords k s h = (h.1, xor_lt 32 s.0 (g k s.1) h.0 (g-IsU32 k s.1))

rounds-IsWords : (ks : List ℕ) (s : ℕ × ℕ) → IsWords s → IsWords (rounds ks s)
unfolding rounds
rounds-IsWords [] s h = h
rounds-IsWords (k ∷ ks) s h = rounds-IsWords ks (round k s) (round-IsWords k s h)

pub feistel-IsWords : (ks : List ℕ) (s : ℕ × ℕ) → IsWords s → IsWords (feistel ks s)
unfolding feistel
feistel-IsWords ks s h =
    let r = rounds-IsWords (take 31 ks) s h in (xor_lt 32 _ _ r.0 (g-IsU32 (get_or ks 31 0) _), r.1)
