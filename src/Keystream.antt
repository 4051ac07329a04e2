-- ===== src/Keystream.antt =====
-- `CntKeystream` of src/gost28147.rs: the CNT keystream with key meshing.
pub mod Apply
pub mod Blocks
pub mod Meshing
use crypto_kiddie.Prelude.{
  ℕ, ◌+◌, ◌%◌, ◌^◌, bit_xor, Bool, true, false, ◌&&◌, List, [], ◌∷◌, ◌++◌, map, flatten,
  if◌then◌else◌, ltb, ◌==◌, length, get_or, take, drop, le_value, le_bytes, chunks_exact,
}
use crypto_kiddie.Cipher.{Gost28147, new_gost, encrypt_block_le, decrypt_block_le, key_meshing_c}

pub record CntKeystream : Type 0 where
  pub key : Gost28147
  pub raw_key : List ℕ
  pub n1 : ℕ
  pub n2 : ℕ
  pub buf : List ℕ
  pub buf_pos : ℕ
  pub since_mesh : ℕ
  pub meshing : Bool

abbrev pub cnt_c1 : ℕ
cnt_c1 = 0x01010104

abbrev pub cnt_c2 : ℕ
cnt_c2 = 0x01010101

unfoldable pub new : List ℕ → List ℕ → Bool → CntKeystream
new key iv meshing =
    let cipher = new_gost key in
    let seed = encrypt_block_le cipher iv in
    record {
      key = cipher;
      raw_key = key;
      n1 = le_value (take 4 seed);
      n2 = le_value (take 4 (drop 4 seed));
      buf = [];
      buf_pos = 0;
      since_mesh = 0;
      meshing = meshing;
    }

-- K[i+1]: the four blocks of `C`, decrypted under K[i]. The loop of `mesh`.
unfoldable pub mesh_key : List ℕ → List ℕ
mesh_key raw_key =
    flatten (map (decrypt_block_le (new_gost raw_key)) (chunks_exact 8 key_meshing_c))

unfoldable pub mesh : CntKeystream → CntKeystream
mesh s =
    let new_key = mesh_key s.raw_key in
    let key = new_gost new_key in
    let enc = encrypt_block_le key (le_bytes 4 s.n1 ++ le_bytes 4 s.n2) in
    record s {
      raw_key = new_key;
      key = key;
      n1 = le_value (take 4 enc);
      n2 = le_value (take 4 (drop 4 enc));
    }

-- The first lines of `next_block`: mesh after 1024 bytes.
unfoldable pub mesh_if_due : CntKeystream → CntKeystream
unfolding mesh
mesh_if_due s = if s.meshing && s.since_mesh == 1024 then record (mesh s) { since_mesh = 0 } else s

-- The first constant is added to N2 and the carry added back: 0xFFFFFFFF stays as it is.
unfoldable pub add_c1 : ℕ → ℕ
add_c1 n2 =
    let sum = (n2 + cnt_c1) % 2 ^ 32 in
    if ltb (n2 + cnt_c1) (2 ^ 32) then sum else (sum + 1) % 2 ^ 32

unfoldable pub next_block : CntKeystream → CntKeystream × List ℕ
unfolding mesh_if_due add_c1
next_block s0 =
    let s = mesh_if_due s0 in
    let n1 = (s.n1 + cnt_c2) % 2 ^ 32 in
    let n2 = add_c1 s.n2 in
    let gamma = encrypt_block_le s.key (le_bytes 4 n1 ++ le_bytes 4 n2) in
    (record s { n1 = n1; n2 = n2; since_mesh = s.since_mesh + 8 }, gamma)

-- The refill at the head of the loop of `apply`.
unfoldable pub refill : CntKeystream → CntKeystream
unfolding next_block
refill s =
    let (s', gamma) = next_block s in
    if s.buf_pos == length s.buf then record s' { buf = gamma; buf_pos = 0 } else s

-- One turn of the loop of `apply`. The indexing of the code panics out of range, where this gives 0.
unfoldable pub apply_byte : CntKeystream → ℕ → CntKeystream × ℕ
unfolding refill
apply_byte s0 byte =
    let s = refill s0 in
    (record s { buf_pos = s.buf_pos + 1 }, bit_xor byte (get_or s.buf s.buf_pos 0))

unfoldable pub apply : CntKeystream → List ℕ → CntKeystream × List ℕ
unfolding apply_byte
apply s [] = (s, [])
apply s (byte ∷ bytes) =
    let (s', c) = apply_byte s byte in let (s'', cs) = apply s' bytes in (s'', c ∷ cs)
