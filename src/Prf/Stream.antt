-- ===== src/Prf/Stream.antt =====
-- The output of P_hash against the infinite stream that RFC 5246 section 5 defines.
use crypto_kiddie.Prelude.{
  ℕ, zero, suc, ◌-◌, ◌*◌, ◌≤◌, min, ◌≡◌, refl, sym, subst, ap, arith, List, [], ◌++◌, length, take,
  length-append, take-append_split, ◌==◌, Bool-cases, inl, inr, ==→eq, ==→ne,
}
use crypto_kiddie.Prf.{hmac_streebog256, p_hash_loop, p_hash}

module _ (streebog256 : List ℕ → List ℕ) (secret seed : List ℕ) where
  -- `A(i + 1)` of the standard, which starts from the seed.
  unfoldable pub chain : ℕ → List ℕ
  chain zero = hmac_streebog256 streebog256 secret seed
  chain (suc i) = hmac_streebog256 streebog256 secret (chain i)

  -- `count` blocks of the standard's stream from block `i` on.
  unfoldable pub stream : ℕ → ℕ → List ℕ
  unfolding chain
  stream i zero = []
  stream i (suc count) =
      hmac_streebog256 streebog256 secret (chain i ++ seed) ++ stream (suc i) count

  module _ (size : (m : List ℕ) → length (streebog256 m) ≡ 32) where
    length-hmac : (key message : List ℕ) → length (hmac_streebog256 streebog256 key message) ≡ 32
    unfolding hmac_streebog256
    length-hmac key message = size _

    pub length-stream : (count i : ℕ) → length (stream i count) ≡ 32 * count
    unfolding stream
    length-stream zero i = refl
    length-stream (suc count) i = omega (
      arith,
      length-append (hmac_streebog256 streebog256 secret (chain i ++ seed)) (stream (suc i) count),
      length-hmac secret (chain i ++ seed),
      length-stream count (suc i),
    )

    p_hash_loop-stream :
        (count fuel i remaining : ℕ)
        → remaining ≤ fuel
        → remaining ≤ 32 * count
        → p_hash_loop streebog256 fuel secret seed (chain i) remaining
          ≡ take remaining (stream i count)
    unfolding p_hash_loop chain stream
    p_hash_loop-stream count zero i remaining enough fits =
        ap (λ (t : ℕ). take t (stream i count)) {x = 0} (omega arith)
    p_hash_loop-stream zero (suc fuel) i remaining enough fits =
        let none_left : remaining ≡ 0 = omega arith in rw none_left refl
    p_hash_loop-stream (suc count) (suc fuel) i remaining enough fits =
        let block = hmac_streebog256 streebog256 secret (chain i ++ seed) in
        let rest = stream (suc i) count in
        let split : take remaining (block ++ rest)
            ≡ take (min remaining 32) block ++ take (remaining - min remaining 32) rest =
          subst
            (λ (k : ℕ).
              take remaining (block ++ rest)
              ≡ take (min remaining k) block ++ take (remaining - min remaining k) rest)
            (length-hmac secret (chain i ++ seed)) (take-append_split block rest remaining) in
        let here = min remaining 32 in
        let later = p_hash_loop-stream count fuel (suc i) (remaining - here) in
        elim (Bool-cases (remaining == 0)) [
          | inl done ↦ rw done (
              ap (λ (t : ℕ). take t (block ++ stream (suc i) count)) (sym (==→eq remaining 0 done)))
          | inr more ↦
              rw (more, later (omega (arith, ==→ne remaining 0 more)) (omega arith)) (sym split)
        ]

    -- Where the hash gives 32 bytes, `p_hash` is a prefix of the standard's stream: of the wanted
    -- length, and the same whatever more of the stream is asked for.
    pub p_hash-stream :
        (count out_len : ℕ)
        → out_len ≤ 32 * count
        → p_hash streebog256 secret seed out_len ≡ take out_len (stream 0 count)
    unfolding p_hash chain
    p_hash-stream count out_len fits = p_hash_loop-stream count out_len 0 out_len (omega arith) fits
