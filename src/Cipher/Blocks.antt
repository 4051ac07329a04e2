-- ===== src/Cipher/Blocks.antt =====
-- The block functions of `Gost28147` on arrays of eight bytes.
use crypto_kiddie.Prelude.{
  ℕ, ◌≡◌, refl, sym, ap, ap₂, ◌∙◌, List, ◌++◌, reverse, length, take, drop, take-append-drop,
  length-take, length-drop, take-all, le_bytes, All-take, All-drop, All-append, IsByte, IsArray,
  le_value-IsU32, le_value-le_bytes, le_bytes-le_value_array, le_bytes-IsBytes, arith,
  reverse-reverse,
}
use crypto_kiddie.Cipher.{
  Gost28147, feistel, halves_le, join_le, encrypt_block_le, decrypt_block_le, new_gost, from_words,
  schedule,
}
use crypto_kiddie.Cipher.Network.{IsWords, feistel-IsWords, feistel-reverse, length-reverse}

take-IsArray : (b : List ℕ) → IsArray 8 b → IsArray 4 (take 4 b)
take-IsArray b a = record {
  size = length-take 4 b (omega (arith, a.size));
  bytes = All-take IsByte 4 b a.bytes;
}

drop-IsArray : (b : List ℕ) → IsArray 8 b → IsArray 4 (take 4 (drop 4 b))
drop-IsArray b a = record {
  size = length-take 4 (drop 4 b) (omega (arith, a.size, length-drop 4 b));
  bytes = All-take IsByte 4 (drop 4 b) (All-drop IsByte 4 b a.bytes);
}

halves_le-IsWords : (b : List ℕ) → IsArray 8 b → IsWords (halves_le b)
halves_le-IsWords b a = (le_value-IsU32 _ (drop-IsArray b a), le_value-IsU32 _ (take-IsArray b a))

join_le-IsArray : (r : ℕ × ℕ) → IsArray 8 (join_le r)
join_le-IsArray r = record {
  size = refl;
  bytes =
      All-append IsByte (le_bytes 4 r.1) (le_bytes 4 r.0) (le_bytes-IsBytes 4 r.1)
        (le_bytes-IsBytes 4 r.0);
}

halves_le-join_le : (r : ℕ × ℕ) → IsWords r → halves_le (join_le r) ≡ r
halves_le-join_le r h =
    ap₂ (λ (x y : ℕ). let p : ℕ × ℕ = (x, y) in p) (le_value-le_bytes 4 r.0 h.0)
      (le_value-le_bytes 4 r.1 h.1)

join_le-halves_le : (b : List ℕ) → IsArray 8 b → join_le (halves_le b) ≡ b
join_le-halves_le b a =
    ap₂ ◌++◌ (le_bytes-le_value_array 4 _ (take-IsArray b a))
      (le_bytes-le_value_array 4 _ (drop-IsArray b a))
    ∙ ap (λ (t : List ℕ). take 4 b ++ t)
        (take-all 4 (drop 4 b) (omega (arith, a.size, length-drop 4 b)))
    ∙ take-append-drop 4 b

pub encrypt_block_le-IsArray : (c : Gost28147) (b : List ℕ) → IsArray 8 (encrypt_block_le c b)
unfolding encrypt_block_le
encrypt_block_le-IsArray c b = join_le-IsArray (feistel c.enc (halves_le b))

pub decrypt_block_le-IsArray : (c : Gost28147) (b : List ℕ) → IsArray 8 (decrypt_block_le c b)
unfolding decrypt_block_le
decrypt_block_le-IsArray c b = join_le-IsArray (feistel (reverse c.enc) (halves_le b))

decrypt-encrypt :
    (c : Gost28147) (b : List ℕ)
    → length c.enc ≡ 32
    → IsArray 8 b
    → decrypt_block_le c (encrypt_block_le c b) ≡ b
unfolding decrypt_block_le encrypt_block_le
decrypt-encrypt c b h a =
    ap (λ (t : ℕ × ℕ). join_le (feistel (reverse c.enc) t))
      (halves_le-join_le _ (feistel-IsWords c.enc _ (halves_le-IsWords b a)))
    ∙ ap join_le (feistel-reverse c.enc (halves_le b) h)
    ∙ join_le-halves_le b a

encrypt-decrypt :
    (c : Gost28147) (b : List ℕ)
    → length c.enc ≡ 32
    → IsArray 8 b
    → encrypt_block_le c (decrypt_block_le c b) ≡ b
unfolding decrypt_block_le encrypt_block_le
encrypt-decrypt c b h a =
    let dec = reverse c.enc in
    ap (λ (t : ℕ × ℕ). join_le (feistel c.enc t))
      (halves_le-join_le _ (feistel-IsWords dec _ (halves_le-IsWords b a)))
    ∙ ap (λ (t : List ℕ). join_le (feistel t (feistel dec (halves_le b))))
        (sym (reverse-reverse c.enc))
    ∙ ap join_le (feistel-reverse dec (halves_le b) (length-reverse c.enc ∙ h))
    ∙ join_le-halves_le b a

length-new_gost : (key : List ℕ) → length (new_gost key).enc ≡ 32
unfolding new_gost from_words schedule
length-new_gost key = refl

-- Under every key, `decrypt_block_le` takes `encrypt_block_le` back on each block of eight bytes.
pub decrypt_block_le-encrypt_block_le :
    (key block : List ℕ)
    → IsArray 8 block
    → decrypt_block_le (new_gost key) (encrypt_block_le (new_gost key) block) ≡ block
decrypt_block_le-encrypt_block_le key block =
    decrypt-encrypt (new_gost key) block (length-new_gost key)

-- Under every key, `encrypt_block_le` takes `decrypt_block_le` back on each block of eight bytes.
pub encrypt_block_le-decrypt_block_le :
    (key block : List ℕ)
    → IsArray 8 block
    → encrypt_block_le (new_gost key) (decrypt_block_le (new_gost key) block) ≡ block
encrypt_block_le-decrypt_block_le key block =
    encrypt-decrypt (new_gost key) block (length-new_gost key)
