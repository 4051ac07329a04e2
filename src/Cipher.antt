-- ===== src/Cipher.antt =====
-- src/gost28147.rs: the block cipher GOST 28147-89 with the param-Z S-box. A `[u8; n]` is a list of
-- bytes, a `u32` a number below 2 ^ 32, and an index into an array of fixed size reads 0 outside it.
mod Network
pub mod Blocks
use crypto_kiddie.Prelude.{
  ℕ, zero, suc, ◌+◌, ◌-◌, ◌*◌, ◌/◌, ◌%◌, ◌^◌, bit_and, bit_or, bit_xor, Bool, true, false, List, [],
  ◌∷◌, ◌++◌, map, reverse, if◌then◌else◌, get_or, take, drop, le_value, le_bytes, be_value,
  be_bytes, range, shl32, rotate_left,
}

abbrev pub sbox_z : List (List ℕ)
sbox_z =
    (12 ∷ 4 ∷ 6 ∷ 2 ∷ 10 ∷ 5 ∷ 11 ∷ 9 ∷ 14 ∷ 8 ∷ 13 ∷ 7 ∷ 0 ∷ 3 ∷ 15 ∷ 1 ∷ [])
    ∷ (6 ∷ 8 ∷ 2 ∷ 3 ∷ 9 ∷ 10 ∷ 5 ∷ 12 ∷ 1 ∷ 14 ∷ 4 ∷ 7 ∷ 11 ∷ 13 ∷ 0 ∷ 15 ∷ [])
    ∷ (11 ∷ 3 ∷ 5 ∷ 8 ∷ 2 ∷ 15 ∷ 10 ∷ 13 ∷ 14 ∷ 1 ∷ 7 ∷ 4 ∷ 12 ∷ 9 ∷ 6 ∷ 0 ∷ [])
    ∷ (12 ∷ 8 ∷ 2 ∷ 1 ∷ 13 ∷ 4 ∷ 15 ∷ 6 ∷ 7 ∷ 0 ∷ 10 ∷ 5 ∷ 3 ∷ 14 ∷ 9 ∷ 11 ∷ [])
    ∷ (7 ∷ 15 ∷ 5 ∷ 10 ∷ 8 ∷ 1 ∷ 6 ∷ 13 ∷ 0 ∷ 9 ∷ 3 ∷ 14 ∷ 11 ∷ 4 ∷ 2 ∷ 12 ∷ [])
    ∷ (5 ∷ 13 ∷ 15 ∷ 6 ∷ 9 ∷ 2 ∷ 12 ∷ 10 ∷ 11 ∷ 7 ∷ 8 ∷ 1 ∷ 4 ∷ 3 ∷ 14 ∷ 0 ∷ [])
    ∷ (8 ∷ 14 ∷ 2 ∷ 5 ∷ 6 ∷ 9 ∷ 1 ∷ 12 ∷ 15 ∷ 4 ∷ 11 ∷ 0 ∷ 13 ∷ 10 ∷ 3 ∷ 7 ∷ [])
    ∷ (1 ∷ 7 ∷ 14 ∷ 13 ∷ 0 ∷ 5 ∷ 8 ∷ 3 ∷ 4 ∷ 15 ∷ 10 ∷ 6 ∷ 9 ∷ 12 ∷ 11 ∷ 2 ∷ [])
    ∷ []

-- The loop of `g` from row `i` on: each nibble of `s` is replaced by the row's entry.
unfoldable pub substitute : List (List ℕ) → ℕ → ℕ → ℕ → ℕ
substitute [] i s out = out
substitute (row ∷ rows) i s out =
    let nibble = bit_and (s / 2 ^ (4 * i)) 0xF in
    substitute rows (i + 1) s (bit_or out (shl32 (get_or row nibble 0) (4 * i)))

unfoldable pub g : ℕ → ℕ → ℕ
unfolding substitute
g k a = rotate_left (substitute sbox_z 0 ((a + k) % 2 ^ 32) 0) 11

unfoldable pub schedule : List ℕ → List ℕ
schedule words =
    map (λ i. get_or words (i % 8) 0) (range 0 24) ++ map (λ i. get_or words (7 - i) 0) (range 0 8)

-- One round with its half-swap, on the pair (a1, a0).
unfoldable pub round : ℕ → ℕ × ℕ → ℕ × ℕ
unfolding g
round k s = (s.1, bit_xor s.0 (g k s.1))

unfoldable pub rounds : List ℕ → ℕ × ℕ → ℕ × ℕ
unfolding round
rounds [] s = s
rounds (k ∷ ks) s = rounds ks (round k s)

unfoldable pub feistel : List ℕ → ℕ × ℕ → ℕ × ℕ
unfolding rounds g
feistel ks s = let (a1, a0) = rounds (take 31 ks) s in (bit_xor a1 (g (get_or ks 31 0) a0), a0)

pub record Gost28147 : Type 0 where
  pub enc : List ℕ

unfoldable pub from_words : List ℕ → Gost28147
unfolding schedule
from_words words = record { enc = schedule words }

unfoldable pub key_words : List ℕ → Bool → List ℕ
key_words key big_endian =
    map
      (λ j.
        let chunk = take 4 (drop (4 * j) key) in
        if big_endian then be_value chunk else le_value chunk)
      (range 0 8)

unfoldable pub new_gost : List ℕ → Gost28147
unfolding from_words key_words
new_gost key = from_words (key_words key false)

unfoldable pub new_magma : List ℕ → Gost28147
unfolding from_words key_words
new_magma key = from_words (key_words key true)

-- The halves of a block, as the pair (a1, a0).
abbrev halves_le : List ℕ → ℕ × ℕ
halves_le block = (le_value (take 4 (drop 4 block)), le_value (take 4 block))

abbrev join_le : ℕ × ℕ → List ℕ
join_le r = le_bytes 4 r.1 ++ le_bytes 4 r.0

unfoldable pub encrypt_block_le : Gost28147 → List ℕ → List ℕ
unfolding feistel
encrypt_block_le c block = join_le (feistel c.enc (halves_le block))

unfoldable pub decrypt_block_le : Gost28147 → List ℕ → List ℕ
unfolding feistel
decrypt_block_le c block = join_le (feistel (reverse c.enc) (halves_le block))

unfoldable pub encrypt_block_be : Gost28147 → List ℕ → List ℕ
unfolding feistel
encrypt_block_be c block =
    let (r1, r0) = feistel c.enc (be_value (take 4 block), be_value (take 4 (drop 4 block))) in
    be_bytes 4 r1 ++ be_bytes 4 r0

unfoldable pub imit_step : Gost28147 → ℕ × ℕ → ℕ × ℕ
unfolding rounds
imit_step c s = rounds (take 16 c.enc) s

abbrev pub key_meshing_c : List ℕ
key_meshing_c =
    0x69 ∷ 0x00 ∷ 0x72 ∷ 0x22 ∷ 0x64 ∷ 0xC9 ∷ 0x04 ∷ 0x23 ∷ 0x8D ∷ 0x3A ∷ 0xDB ∷ 0x96 ∷ 0x46 ∷ 0xE9
    ∷ 0x2A ∷ 0xC4 ∷ 0x18 ∷ 0xFE ∷ 0xAC ∷ 0x94 ∷ 0x00 ∷ 0xED ∷ 0x07 ∷ 0x12 ∷ 0xC0 ∷ 0x86 ∷ 0xDC
    ∷ 0xC2 ∷ 0xEF ∷ 0x4C ∷ 0xA9 ∷ 0x2B ∷ []
