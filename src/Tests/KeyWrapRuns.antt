-- ===== src/Tests/KeyWrapRuns.antt =====
-- Key wrapping: the known answers of src/gost_keywrap.rs, and the theorems at concrete inputs.
use crypto_kiddie.Prelude.{◌≡◌, ◌↔◌, refl, arith, [], ◌∷◌, chunks_exact, remainder, flatten}
use crypto_kiddie.Cipher.{new_gost, encrypt_block_le, imit_step}
use crypto_kiddie.Imit.{imit, imit_mix}
use crypto_kiddie.KeyWrap.{
  WrappedKey, ok, kek_diversify, to_bytes, from_bytes, gost_key_wrap, gost_key_unwrap,
}
use crypto_kiddie.KeyWrap.Unwrap.{gost_key_unwrap-gost_key_wrap, gost_key_unwrap_iff, IsWrapped}
use crypto_kiddie.KeyWrap.Layout.{from_bytes-to_bytes_iff}
use crypto_kiddie.Tests.Samples.{kek, cek, ukm, cek-IsArray}

diversify_kat :
    kek_diversify kek ukm
    ≡ 0xc8 ∷ 0x04 ∷ 0xd4 ∷ 0x10 ∷ 0x4f ∷ 0x36 ∷ 0xbb ∷ 0xc6 ∷ 0x07 ∷ 0xfb ∷ 0x6a ∷ 0x0c ∷ 0x8f
      ∷ 0xcc ∷ 0x35 ∷ 0xf4 ∷ 0x13 ∷ 0x4e ∷ 0x7d ∷ 0x35 ∷ 0x95 ∷ 0x09 ∷ 0x35 ∷ 0x1b ∷ 0xdd ∷ 0x64
      ∷ 0xa8 ∷ 0x57 ∷ 0xa7 ∷ 0x53 ∷ 0x32 ∷ 0x61 ∷ []
unfolding kek_diversify chunks_exact encrypt_block_le new_gost
diversify_kat = refl

wrap_kat :
    to_bytes (gost_key_wrap kek ukm cek)
    ≡ 0x11 ∷ 0x22 ∷ 0x33 ∷ 0x44 ∷ 0x55 ∷ 0x66 ∷ 0x77 ∷ 0x88 ∷ 0x45 ∷ 0xff ∷ 0xfb ∷ 0x70 ∷ 0xed
      ∷ 0x51 ∷ 0x9f ∷ 0xee ∷ 0x6d ∷ 0x07 ∷ 0xa0 ∷ 0x37 ∷ 0x08 ∷ 0xdb ∷ 0xd0 ∷ 0x8d ∷ 0x1e ∷ 0x37
      ∷ 0x24 ∷ 0x42 ∷ 0xfa ∷ 0x12 ∷ 0x63 ∷ 0xcb ∷ 0x24 ∷ 0xbe ∷ 0x02 ∷ 0x5f ∷ 0x7a ∷ 0x64 ∷ 0xee
      ∷ 0x1e ∷ 0x9e ∷ 0x47 ∷ 0x1c ∷ 0xae ∷ []
unfolding to_bytes gost_key_wrap imit remainder chunks_exact imit_mix imit_step encrypt_block_le
    new_gost flatten
wrap_kat = refl

abbrev wrapped : WrappedKey
wrapped = record { ukm = ukm; cek_enc = cek; cek_mac = 1 ∷ 2 ∷ 3 ∷ 4 ∷ [] }

wrapped-IsWrapped : IsWrapped wrapped
wrapped-IsWrapped = record {
  ukm = record { size = refl; bytes = omega arith };
  cek_enc = cek-IsArray;
  cek_mac = record { size = refl; bytes = omega arith };
}

gost_key_unwrap-gost_key_wrap_example : gost_key_unwrap kek (gost_key_wrap kek ukm cek) ≡ ok cek
gost_key_unwrap-gost_key_wrap_example = gost_key_unwrap-gost_key_wrap kek ukm cek cek-IsArray

gost_key_unwrap_iff_example :
    (gost_key_unwrap kek wrapped ≡ ok cek) ↔ (wrapped ≡ gost_key_wrap kek wrapped.ukm cek)
gost_key_unwrap_iff_example = gost_key_unwrap_iff kek wrapped cek wrapped-IsWrapped cek-IsArray

from_bytes-to_bytes_iff_example :
    (from_bytes (to_bytes wrapped) ≡ ok wrapped) ↔ (to_bytes wrapped ≡ to_bytes wrapped)
from_bytes-to_bytes_iff_example =
    from_bytes-to_bytes_iff wrapped (to_bytes wrapped) wrapped-IsWrapped
