-- ===== src/KeyWrap/Unwrap.antt =====
-- `gost_key_unwrap` against `gost_key_wrap`.
use crypto_kiddie.Prelude.{
  ℕ, ◌%◌, ◌≡◌, ◌↔◌, refl, sym, ap, ◌∙◌, subst, arith, true, List, [], ◌∷◌, length, IsArray, bit_or,
  bit_xor, get_or, xor_self, eq_of_xor, or_ge, ◌≤◌, inl, inr, Bool-cases, ==→eq, eq→==, range, ◌==◌,
  if◌then◌else◌,
}
use crypto_kiddie.Imit.{imit}
use crypto_kiddie.Cipher.{new_gost}
use crypto_kiddie.KeyWrap.{
  WrappedKey, Result, ok, err, bad_mac, gost_key_wrap, gost_key_unwrap, encrypt_ecb, decrypt_ecb,
  kek_diversify, diff_at, constant_time_eq,
}
use crypto_kiddie.KeyWrap.Ecb.{decrypt_ecb-encrypt_ecb, encrypt_ecb-decrypt_ecb}

-- A wrapped key as the program holds it, in arrays of 8, 32 and 4 bytes.
pub record IsWrapped (w : WrappedKey) : Type 0 where
  pub ukm : IsArray 8 w.ukm
  pub cek_enc : IsArray 32 w.cek_enc
  pub cek_mac : IsArray 4 w.cek_mac

pub diff_at_self : (a is : List ℕ) → diff_at a a is 0 ≡ 0
unfolding diff_at
diff_at_self a [] = refl
diff_at_self a (i ∷ is) = rw (xor_self (get_or a i 0)) (diff_at_self a is)

diff_at-ge : (a b is : List ℕ) (diff : ℕ) → diff ≤ diff_at a b is diff
unfolding diff_at
diff_at-ge a b [] diff = omega arith
diff_at-ge a b (i ∷ is) diff =
    let step = bit_or diff (bit_xor (get_or a i 0) (get_or b i 0)) in
    omega (arith, or_ge diff (bit_xor (get_or a i 0) (get_or b i 0)), diff_at-ge a b is step)

-- Where the difference stays 0 the bytes at the first index agree, and so at the others.
pub diff_at_head :
    (a b is : List ℕ) (i : ℕ)
    → diff_at a b (i ∷ is) 0 ≡ 0
    → (get_or a i 0 ≡ get_or b i 0) × (diff_at a b is 0 ≡ 0)
unfolding diff_at
diff_at_head a b is i h =
    let x = bit_xor (get_or a i 0) (get_or b i 0) in
    let step : bit_or 0 x ≡ 0 = omega (arith, diff_at-ge a b is (bit_or 0 x)) in
    (eq_of_xor _ _ (omega (arith, or_ge 0 x)), ap (diff_at a b is) (sym step) ∙ h)

eq_of_four :
    (a b : List ℕ)
    → length a ≡ 4
    → length b ≡ 4
    → get_or a 0 0 ≡ get_or b 0 0
    → get_or a 1 0 ≡ get_or b 1 0
    → get_or a 2 0 ≡ get_or b 2 0
    → get_or a 3 0 ≡ get_or b 3 0
    → a ≡ b
eq_of_four (a0 ∷ a1 ∷ a2 ∷ a3 ∷ []) (b0 ∷ b1 ∷ b2 ∷ b3 ∷ []) h k e0 e1 e2 e3 = cc
eq_of_four a b h k e0 e1 e2 e3 = absurd (omega arith)

-- The comparison of two arrays of four bytes decides their equality.
pub constant_time_eq_iff :
    (a b : List ℕ) → length a ≡ 4 → length b ≡ 4 → (constant_time_eq a b ≡ true) ↔ (a ≡ b)
unfolding constant_time_eq
constant_time_eq_iff a b h k = (
  (λ e.
      let d0 = diff_at_head a b (1 ∷ 2 ∷ 3 ∷ []) 0 (==→eq _ _ e) in
      let d1 = diff_at_head a b (2 ∷ 3 ∷ []) 1 d0.1 in
      let d2 = diff_at_head a b (3 ∷ []) 2 d1.1 in
      let d3 = diff_at_head a b [] 3 d2.1 in eq_of_four a b h k d0.0 d1.0 d2.0 d3.0),
  λ e.
      subst (λ (t : List ℕ). (diff_at a t (range 0 4) 0 == 0) ≡ true) e
        (eq→== _ _ (diff_at_self a (range 0 4))),
)

length-imit : (key iv message : List ℕ) → length (imit key iv message) ≡ 4
unfolding imit
length-imit key iv message = refl

-- What `gost_key_unwrap` does with the decrypted key.
abbrev checked : List ℕ → WrappedKey → List ℕ → Result (List ℕ)
checked kek_ukm w cek =
    if constant_time_eq (imit kek_ukm w.ukm cek) w.cek_mac then ok cek else err bad_mac

unwrap-checked :
    (kek : List ℕ) (w : WrappedKey)
    → gost_key_unwrap kek w
      ≡ checked
          (kek_diversify kek w.ukm)
          w
          (decrypt_ecb (new_gost (kek_diversify kek w.ukm)) w.cek_enc)
unfolding gost_key_unwrap
unwrap-checked kek w = refl

-- Unwrapping what was wrapped gives the key back, for every key-encryption key and every UKM.
pub gost_key_unwrap-gost_key_wrap :
    (kek ukm cek : List ℕ)
    → IsArray 32 cek
    → gost_key_unwrap kek (gost_key_wrap kek ukm cek) ≡ ok cek
unfolding gost_key_wrap
gost_key_unwrap-gost_key_wrap kek ukm cek a =
    let w = gost_key_wrap kek ukm cek in
    let kek_ukm = kek_diversify kek ukm in
    let mac = imit kek_ukm ukm cek in
    unwrap-checked kek w
    ∙ ap (checked kek_ukm w)
        (decrypt_ecb-encrypt_ecb kek_ukm cek a.bytes (ap (λ (t : ℕ). t % 8) a.size))
    ∙ rw
        ((constant_time_eq_iff mac mac (length-imit kek_ukm ukm cek)
            (length-imit kek_ukm ukm cek)).1
          refl)
        refl

unwrap_sound :
    (kek : List ℕ) (w : WrappedKey) (cek : List ℕ)
    → IsWrapped w
    → gost_key_unwrap kek w ≡ ok cek
    → w ≡ gost_key_wrap kek w.ukm cek
unfolding gost_key_wrap
unwrap_sound kek w cek ok_w h =
    let kek_ukm = kek_diversify kek w.ukm in
    let dec = decrypt_ecb (new_gost kek_ukm) w.cek_enc in
    let mac = imit kek_ukm w.ukm dec in
    let h' : checked kek_ukm w dec ≡ ok cek = sym (unwrap-checked kek w) ∙ h in
    elim (Bool-cases (constant_time_eq mac w.cek_mac)) [
      | inl same ↦
          let found : dec ≡ cek = cc (rw same at h') in
          let tag : mac ≡ w.cek_mac =
            (constant_time_eq_iff mac w.cek_mac (length-imit kek_ukm w.ukm dec) ok_w.cek_mac.size).0
              same in
          let enc : w.cek_enc ≡ encrypt_ecb (new_gost kek_ukm) cek =
            sym (
              encrypt_ecb-decrypt_ecb kek_ukm w.cek_enc ok_w.cek_enc.bytes
                (ap (λ (t : ℕ). t % 8) ok_w.cek_enc.size))
            ∙ ap (encrypt_ecb (new_gost kek_ukm)) found in
          let code : w.cek_mac ≡ imit kek_ukm w.ukm cek = sym tag ∙ ap (imit kek_ukm w.ukm) found in
          λ i. record { ukm = w.ukm; cek_enc = enc i; cek_mac = code i }
      | inr other ↦ cc (rw other at h')
    ]

-- Of a wrapped key in arrays of the right sizes, `gost_key_unwrap` accepts exactly what
-- `gost_key_wrap` makes of the key that it returns.
pub gost_key_unwrap_iff :
    (kek : List ℕ) (w : WrappedKey) (cek : List ℕ)
    → IsWrapped w
    → IsArray 32 cek
    → (gost_key_unwrap kek w ≡ ok cek) ↔ (w ≡ gost_key_wrap kek w.ukm cek)
gost_key_unwrap_iff kek w cek ok_w a = (
  unwrap_sound kek w cek ok_w,
  λ e. ap (gost_key_unwrap kek) e ∙ gost_key_unwrap-gost_key_wrap kek w.ukm cek a,
)
