-- ===== src/Prf/Secrets.antt =====
-- The sizes of the secrets, and the six keys as the parts of the key block.
use crypto_kiddie.Prelude.{
  ℕ, zero, suc, ◌+◌, ◌≤◌, ◌≡◌, refl, sym, ap, ◌∙◌, arith, List, [], ◌∷◌, ◌++◌, length, take, drop,
  length-take, length-drop, take-append-drop, drop-drop, take-all,
}
use crypto_kiddie.Prf.{slice, KeyBlock, key_block, prf, key_expansion_label}
use crypto_kiddie.Prf.Stream.{p_hash-stream, stream, length-stream}

-- The six keys, one behind the other.
abbrev pub joined : KeyBlock → List ℕ
joined kb =
    kb.client_mac_key
    ++ (kb.server_mac_key
        ++ (kb.client_enc_key ++ (kb.server_enc_key ++ (kb.client_iv ++ kb.server_iv))))

take-take : (m n : ℕ) (xs : List ℕ) → m ≤ n → take m (take n xs) ≡ take m xs
take-take zero n xs h = refl
take-take (suc m) zero xs h = absurd (omega arith)
take-take (suc m) (suc n) [] h = refl
take-take (suc m) (suc n) (x ∷ xs) h = ap (λ (t : List ℕ). x ∷ t) (take-take m n xs (omega arith))

-- A slice, joined with what stands behind it.
slice-join :
    (block : List ℕ) (off n : ℕ) → take n (drop off block) ++ drop (off + n) block ≡ drop off block
slice-join block off n =
    ap (λ (t : List ℕ). take n (drop off block) ++ t) (sym (drop-drop n off block))
    ∙ take-append-drop n (drop off block)

cut_six :
    (block : List ℕ)
    → length block ≡ 144
    → slice block 0 32
        ++ (slice block 32 32
            ++ (slice block 64 32
                ++ (slice block 96 32 ++ (slice block 128 8 ++ slice block 136 8))))
      ≡ block
cut_six block h =
    let before : ℕ → ℕ → List ℕ → List ℕ = λ off n t. slice block off n ++ t in
    let last : slice block 136 8 ≡ drop 136 block =
      take-all 8 (drop 136 block) (omega (arith, length-drop 136 block)) in
    ap (before 0 32) (
      ap (before 32 32) (
        ap (before 64 32) (
          ap (before 96 32) (ap (before 128 8) last ∙ slice-join block 128 8)
          ∙ slice-join block 96 32)
        ∙ slice-join block 64 32)
      ∙ slice-join block 32 32)
    ∙ slice-join block 0 32

module _ (streebog256 : List ℕ → List ℕ) (size : (m : List ℕ) → length (streebog256 m) ≡ 32) where
  -- `prf` returns exactly the bytes that were asked for.
  pub length-prf :
      (secret label seed : List ℕ) (out_len : ℕ)
      → length (prf streebog256 secret label seed out_len) ≡ out_len
  unfolding prf
  length-prf secret label seed out_len =
      ap length
        (p_hash-stream streebog256 secret (label ++ seed) size out_len out_len (omega arith))
      ∙ length-take out_len (stream streebog256 secret (label ++ seed) 0 out_len)
          (omega (arith, length-stream streebog256 secret (label ++ seed) size out_len 0))

  -- Asking for fewer bytes gives a prefix of what more bytes would be.
  pub take-prf :
      (secret label seed : List ℕ) (m n : ℕ)
      → m ≤ n
      → take m (prf streebog256 secret label seed n) ≡ prf streebog256 secret label seed m
  unfolding prf
  take-prf secret label seed m n h =
      let full = label ++ seed in
      ap (take m) (p_hash-stream streebog256 secret full size n n (omega arith))
      ∙ take-take m n (stream streebog256 secret full 0 n) h
      ∙ sym (p_hash-stream streebog256 secret full size n m (omega arith))

  -- The six keys, in the order of the standard, are the 144 bytes of the key block: no byte is left
  -- out and none is used twice.
  pub key_block_parts :
      (ms client_random server_random : List ℕ)
      → joined (key_block streebog256 ms client_random server_random)
        ≡ prf streebog256 ms key_expansion_label (server_random ++ client_random) 144
  unfolding key_block
  key_block_parts ms client_random server_random =
      let block = prf streebog256 ms key_expansion_label (server_random ++ client_random) 144 in
      cut_six block (length-prf ms key_expansion_label (server_random ++ client_random) 144)
