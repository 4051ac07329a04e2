-- ===== src/KeyWrap.antt =====
-- src/gost_keywrap.rs: key diversification, wrapping and unwrapping.
pub mod Ecb
pub mod Unwrap
pub mod Layout
use crypto_kiddie.Prelude.{
  ℕ, ◌+◌, ◌/◌, ◌%◌, ◌*◌, ◌^◌, bit_and, bit_or, bit_xor, Bool, List, [], ◌∷◌, ◌++◌, map, flatten,
  if◌then◌else◌, ◌==◌, length, take, drop, get_or, range, le_value, le_bytes, chunks_exact,
  xor_bytes,
}
use crypto_kiddie.Cipher.{Gost28147, new_gost, encrypt_block_le, decrypt_block_le}
use crypto_kiddie.Imit.{imit}

abbrev pub wrapped_key_len : ℕ
wrapped_key_len = 8 + 32 + 4

unfoldable pub encrypt_ecb : Gost28147 → List ℕ → List ℕ
encrypt_ecb cipher text = flatten (map (encrypt_block_le cipher) (chunks_exact 8 text))

unfoldable pub decrypt_ecb : Gost28147 → List ℕ → List ℕ
decrypt_ecb cipher text = flatten (map (decrypt_block_le cipher) (chunks_exact 8 text))

-- The loop of `encrypt_cfb` over the blocks.
unfoldable pub cfb_blocks : Gost28147 → List ℕ → List (List ℕ) → List ℕ
cfb_blocks cipher feedback [] = []
cfb_blocks cipher feedback (block ∷ blocks) =
    let cblock = xor_bytes block (encrypt_block_le cipher feedback) in
    cblock ++ cfb_blocks cipher cblock blocks

unfoldable pub encrypt_cfb : Gost28147 → List ℕ → List ℕ → List ℕ
unfolding cfb_blocks
encrypt_cfb cipher iv text = cfb_blocks cipher iv (chunks_exact 8 text)

-- The inner loop of `kek_diversify`: the sums of the words that the byte's bits select, and of the
-- others.
unfoldable pub select_sums : List ℕ → ℕ → List ℕ → ℕ × ℕ → ℕ × ℕ
select_sums k ukm_byte [] s = s
select_sums k ukm_byte (j ∷ js) s =
    let word = le_value (take 4 (drop (4 * j) k)) in
    select_sums k ukm_byte js (
      if bit_and (ukm_byte / 2 ^ j) 1 == 1
      then ((s.0 + word) % 2 ^ 32, s.1)
      else (s.0, (s.1 + word) % 2 ^ 32))

unfoldable pub diversify_step : List ℕ → ℕ → List ℕ
unfolding select_sums encrypt_cfb
diversify_step k ukm_byte =
    let (s1, s2) = select_sums k ukm_byte (range 0 8) (0, 0) in
    encrypt_cfb (new_gost k) (le_bytes 4 s1 ++ le_bytes 4 s2) k

unfoldable pub kek_diversify : List ℕ → List ℕ → List ℕ
unfolding diversify_step
kek_diversify k [] = k
kek_diversify k (ukm_byte ∷ ukm) = kek_diversify (diversify_step k ukm_byte) ukm

pub record WrappedKey : Type 0 where
  pub ukm : List ℕ
  pub cek_enc : List ℕ
  pub cek_mac : List ℕ

pub data KeyWrapError : Type 0 where
  bad_length bad_mac : KeyWrapError

pub data Result (A : Type 0) : Type 0 where
  ok : A → Result A
  err : KeyWrapError → Result A

unfoldable pub to_bytes : WrappedKey → List ℕ
to_bytes w = w.ukm ++ (w.cek_enc ++ w.cek_mac)

unfoldable pub from_bytes : List ℕ → Result WrappedKey
from_bytes bytes =
    if length bytes == wrapped_key_len
    then ok (record {
      ukm = take 8 bytes;
      cek_enc = take 32 (drop 8 bytes);
      cek_mac = take 4 (drop 40 bytes);
    })
    else err bad_length

unfoldable pub gost_key_wrap : List ℕ → List ℕ → List ℕ → WrappedKey
unfolding encrypt_ecb kek_diversify
gost_key_wrap kek ukm cek =
    let kek_ukm = kek_diversify kek ukm in
    record {
      ukm = ukm;
      cek_enc = encrypt_ecb (new_gost kek_ukm) cek;
      cek_mac = imit kek_ukm ukm cek;
    }

-- `diff |= a[i] ^ b[i]` over the indices.
unfoldable pub diff_at : List ℕ → List ℕ → List ℕ → ℕ → ℕ
diff_at a b [] diff = diff
diff_at a b (i ∷ is) diff = diff_at a b is (bit_or diff (bit_xor (get_or a i 0) (get_or b i 0)))

unfoldable pub constant_time_eq : List ℕ → List ℕ → Bool
unfolding diff_at
constant_time_eq a b = diff_at a b (range 0 4) 0 == 0

unfoldable pub gost_key_unwrap : List ℕ → WrappedKey → Result (List ℕ)
unfolding decrypt_ecb kek_diversify
gost_key_unwrap kek wrapped =
    let kek_ukm = kek_diversify kek wrapped.ukm in
    let cek = decrypt_ecb (new_gost kek_ukm) wrapped.cek_enc in
    if constant_time_eq (imit kek_ukm wrapped.ukm cek) wrapped.cek_mac then ok cek else err bad_mac
