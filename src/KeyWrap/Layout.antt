-- ===== src/KeyWrap/Layout.antt =====
-- The 44 bytes of a wrapped key, and the sizes of what the key derivation makes.
use crypto_kiddie.Prelude.{
  ℕ, zero, suc, ◌+◌, ◌*◌, ◌≡◌, ◌↔◌, sym, ap, ◌∙◌, arith, List, [], ◌∷◌, ◌++◌, length, take, drop,
  IsArray, IsByte, IsBytes, xor_lt, xor_bytes, length-append, take-append, drop-append,
  take-append-drop, take-all, length-drop, drop-drop, All, All-append, chunks_exact,
  All-chunks_exact, length-chunks_exact, inl, inr, Bool-cases, ◌==◌, ==→eq, eq→==, subst,
}
use crypto_kiddie.Cipher.{Gost28147, new_gost, encrypt_block_le}
use crypto_kiddie.Cipher.Blocks.{encrypt_block_le-IsArray}
use crypto_kiddie.KeyWrap.{
  WrappedKey, ok, to_bytes, from_bytes, cfb_blocks, encrypt_cfb, diversify_step, kek_diversify,
  wrapped_key_len,
}
use crypto_kiddie.KeyWrap.Unwrap.{IsWrapped}

-- The three fields, cut out of any 44 bytes, put them together again.
fields_join :
    (bytes : List ℕ)
    → length bytes ≡ 44
    → take 8 bytes ++ (take 32 (drop 8 bytes) ++ take 4 (drop 40 bytes)) ≡ bytes
fields_join bytes h =
    let last : take 4 (drop 40 bytes) ≡ drop 32 (drop 8 bytes) =
      take-all 4 (drop 40 bytes) (omega (arith, length-drop 40 bytes))
      ∙ sym (drop-drop 32 8 bytes) in
    ap (λ (t : List ℕ). take 8 bytes ++ (take 32 (drop 8 bytes) ++ t)) last
    ∙ ap (λ (t : List ℕ). take 8 bytes ++ t) (take-append-drop 32 (drop 8 bytes))
    ∙ take-append-drop 8 bytes

length-to_bytes : (w : WrappedKey) → IsWrapped w → length (to_bytes w) ≡ 44
unfolding to_bytes
length-to_bytes w a =
    length-append w.ukm (w.cek_enc ++ w.cek_mac)
    ∙ omega (arith, length-append w.cek_enc w.cek_mac, a.ukm.size, a.cek_enc.size, a.cek_mac.size)

abbrev cut : List ℕ → WrappedKey
cut b = record { ukm = take 8 b; cek_enc = take 32 (drop 8 b); cek_mac = take 4 (drop 40 b) }

cut-to_bytes : (w : WrappedKey) → IsWrapped w → cut (to_bytes w) ≡ w
unfolding to_bytes
cut-to_bytes w a =
    let rest = w.cek_enc ++ w.cek_mac in
    let bytes = w.ukm ++ rest in
    let behind : drop 8 bytes ≡ rest = drop-append w.ukm rest 8 (sym a.ukm.size) in
    let first : take 8 bytes ≡ w.ukm = take-append w.ukm rest 8 (sym a.ukm.size) in
    let second : take 32 (drop 8 bytes) ≡ w.cek_enc =
      ap (take 32) behind ∙ take-append w.cek_enc w.cek_mac 32 (sym a.cek_enc.size) in
    let third : take 4 (drop 40 bytes) ≡ w.cek_mac =
      ap (take 4) (
        sym (drop-drop 32 8 bytes)
        ∙ ap (drop 32) behind
        ∙ drop-append w.cek_enc w.cek_mac 32 (sym a.cek_enc.size))
      ∙ take-all 4 w.cek_mac (omega (arith, a.cek_mac.size)) in
    λ i. record { ukm = first i; cek_enc = second i; cek_mac = third i }

from_bytes-to_bytes : (w : WrappedKey) → IsWrapped w → from_bytes (to_bytes w) ≡ ok w
unfolding from_bytes
from_bytes-to_bytes w a = rw (eq→== _ _ (length-to_bytes w a)) (ap ok (cut-to_bytes w a))

from_bytes_sound : (w : WrappedKey) (bytes : List ℕ) → from_bytes bytes ≡ ok w → to_bytes w ≡ bytes
unfolding from_bytes to_bytes
from_bytes_sound w bytes h = elim (Bool-cases (length bytes == wrapped_key_len)) [
  | inl fits ↦
      let found : cut bytes ≡ w = cc (rw fits at h) in
      ap to_bytes (sym found) ∙ fields_join bytes (==→eq _ _ fits)
  | inr other ↦ cc (rw other at h)
]

-- `from_bytes` reads a wrapped key exactly from the bytes that `to_bytes` makes of it.
pub from_bytes-to_bytes_iff :
    (w : WrappedKey) (bytes : List ℕ)
    → IsWrapped w
    → (from_bytes bytes ≡ ok w) ↔ (to_bytes w ≡ bytes)
from_bytes-to_bytes_iff w bytes a =
    (from_bytes_sound w bytes, λ e. ap from_bytes (sym e) ∙ from_bytes-to_bytes w a)

xor_bytes-IsArray :
    (n : ℕ) (xs ys : List ℕ) → IsArray n xs → IsArray n ys → IsArray n (xor_bytes xs ys)
xor_bytes-IsArray n [] ys a b = a
xor_bytes-IsArray zero (x ∷ xs) ys a b = absurd (omega (arith, a.size))
xor_bytes-IsArray (suc n) (x ∷ xs) [] a b = b
xor_bytes-IsArray (suc n) (x ∷ xs) (y ∷ ys) a b =
    let rest =
      xor_bytes-IsArray n xs ys (record { size = omega (arith, a.size); bytes = a.bytes.1 })
        (record { size = omega (arith, b.size); bytes = b.bytes.1 }) in
    record {
      size = omega (arith, rest.size);
      bytes = (xor_lt 8 x y a.bytes.0 b.bytes.0, rest.bytes);
    }

append-IsArray :
    (m n : ℕ) (xs ys : List ℕ) → IsArray m xs → IsArray n ys → IsArray (m + n) (xs ++ ys)
append-IsArray m n xs ys a b = record {
  size = omega (arith, length-append xs ys, a.size, b.size);
  bytes = All-append IsByte xs ys a.bytes b.bytes;
}

cfb_blocks-IsArray :
    (cipher : Gost28147) (feedback : List ℕ) (blocks : List (List ℕ))
    → All (λ c. (length c ≡ 8) × IsBytes c) blocks
    → IsArray (length blocks * 8) (cfb_blocks cipher feedback blocks)
unfolding cfb_blocks
cfb_blocks-IsArray cipher feedback [] h = record { size = omega arith; bytes = tt }
cfb_blocks-IsArray cipher feedback (b ∷ bs) h =
    let cblock = xor_bytes b (encrypt_block_le cipher feedback) in
    subst (λ (n : ℕ). IsArray n (cblock ++ cfb_blocks cipher cblock bs)) (omega arith)
      (append-IsArray 8 (length bs * 8) cblock (cfb_blocks cipher cblock bs)
        (xor_bytes-IsArray 8 b _ (record { size = h.0.0; bytes = h.0.1 })
          (encrypt_block_le-IsArray cipher feedback))
        (cfb_blocks-IsArray cipher cblock bs h.1))

diversify_step-IsArray : (k : List ℕ) (byte : ℕ) → IsArray 32 k → IsArray 32 (diversify_step k byte)
unfolding diversify_step encrypt_cfb
diversify_step-IsArray k byte a =
    let blocks = chunks_exact 8 k in
    let count : length blocks * 8 ≡ 32 = omega (arith, length-chunks_exact k, a.size) in
    subst (λ (n : ℕ). IsArray n (diversify_step k byte)) count
      (cfb_blocks-IsArray (new_gost k) _ blocks (All-chunks_exact IsByte k a.bytes))

-- `kek_diversify` makes a key of 32 bytes of every key of 32 bytes, so that no copy of a
-- slice of another length can fail on the way, and the next round has its eight words.
pub kek_diversify-IsArray : (kek ukm : List ℕ) → IsArray 32 kek → IsArray 32 (kek_diversify kek ukm)
unfolding kek_diversify
kek_diversify-IsArray kek [] a = a
kek_diversify-IsArray kek (byte ∷ ukm) a =
    kek_diversify-IsArray (diversify_step kek byte) ukm (diversify_step-IsArray kek byte a)
