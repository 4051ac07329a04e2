-- ===== src/Tests/CipherRuns.antt =====
-- The block cipher: the known answers of src/gost28147.rs.
use crypto_kiddie.Prelude.{◌≡◌, refl, ℕ, List, [], ◌∷◌}
use crypto_kiddie.Cipher.{
  g, new_magma, encrypt_block_be, new_gost, encrypt_block_le, decrypt_block_le,
}
use crypto_kiddie.Cipher.Blocks.{
  decrypt_block_le-encrypt_block_le, encrypt_block_le-decrypt_block_le,
}
use crypto_kiddie.Tests.Samples.{sample_key, sample_block, sample_block-IsArray, kek}

-- RFC 8891, appendix A.
abbrev magma_key : List ℕ
magma_key =
    0xff ∷ 0xee ∷ 0xdd ∷ 0xcc ∷ 0xbb ∷ 0xaa ∷ 0x99 ∷ 0x88 ∷ 0x77 ∷ 0x66 ∷ 0x55 ∷ 0x44 ∷ 0x33 ∷ 0x22
    ∷ 0x11 ∷ 0x00 ∷ 0xf0 ∷ 0xf1 ∷ 0xf2 ∷ 0xf3 ∷ 0xf4 ∷ 0xf5 ∷ 0xf6 ∷ 0xf7 ∷ 0xf8 ∷ 0xf9 ∷ 0xfa
    ∷ 0xfb ∷ 0xfc ∷ 0xfd ∷ 0xfe ∷ 0xff ∷ []

magma_kat :
    encrypt_block_be
      (new_magma magma_key)
      (0xfe ∷ 0xdc ∷ 0xba ∷ 0x98 ∷ 0x76 ∷ 0x54 ∷ 0x32 ∷ 0x10 ∷ [])
    ≡ 0x4e ∷ 0xe9 ∷ 0x01 ∷ 0xe5 ∷ 0xc2 ∷ 0xd8 ∷ 0xca ∷ 0x3d ∷ []
unfolding encrypt_block_be new_magma
magma_kat = refl

g_kat : (g 0x87654321 0xfedcba98 ≡ 0xfdcbc20c) × (g 0xfdcbc20c 0x87654321 ≡ 0x7e791a4b)
unfolding g
g_kat = (refl, refl)

ecb_kat :
    encrypt_block_le (new_gost kek) (0 ∷ 1 ∷ 2 ∷ 3 ∷ 4 ∷ 5 ∷ 6 ∷ 7 ∷ [])
    ≡ 0x62 ∷ 0x06 ∷ 0xb7 ∷ 0xa1 ∷ 0x4b ∷ 0xd1 ∷ 0x4f ∷ 0xc5 ∷ []
unfolding encrypt_block_le new_gost
ecb_kat = refl

decrypt_block_le-encrypt_block_le_example :
    decrypt_block_le (new_gost sample_key) (encrypt_block_le (new_gost sample_key) sample_block)
    ≡ sample_block
decrypt_block_le-encrypt_block_le_example =
    decrypt_block_le-encrypt_block_le sample_key sample_block sample_block-IsArray

encrypt_block_le-decrypt_block_le_example :
    encrypt_block_le (new_gost sample_key) (decrypt_block_le (new_gost sample_key) sample_block)
    ≡ sample_block
encrypt_block_le-decrypt_block_le_example =
    encrypt_block_le-decrypt_block_le sample_key sample_block sample_block-IsArray
