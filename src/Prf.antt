-- ===== src/Prf.antt =====
-- src/gost_prf.rs: HMAC, the pseudo-random function of TLS 1.2 and what is derived with it. The
-- hash Streebog-256 is another crate's and a parameter of every definition.
pub mod Stream
pub mod Secrets
use crypto_kiddie.Prelude.{
  ℕ, zero, suc, ◌+◌, ◌-◌, ◌*◌, min, bit_xor, Bool, List, [], ◌∷◌, ◌++◌, map, if◌then◌else◌, ltb,
  ◌==◌, length, take, drop, replicate,
}

abbrev pub mac_len : ℕ
mac_len = 32

abbrev pub block_len : ℕ
block_len = 64

abbrev pub master_secret_len : ℕ
master_secret_len = 48

abbrev pub mac_key_len : ℕ
mac_key_len = 32

abbrev pub enc_key_len : ℕ
enc_key_len = 32

abbrev pub fixed_iv_len : ℕ
fixed_iv_len = 8

abbrev pub key_block_len : ℕ
key_block_len = 2 * (mac_key_len + enc_key_len + fixed_iv_len)

abbrev pub verify_data_len : ℕ
verify_data_len = 12

-- b"master secret"
abbrev pub master_secret_label : List ℕ
master_secret_label =
    0x6d ∷ 0x61 ∷ 0x73 ∷ 0x74 ∷ 0x65 ∷ 0x72 ∷ 0x20 ∷ 0x73 ∷ 0x65 ∷ 0x63 ∷ 0x72 ∷ 0x65 ∷ 0x74 ∷ []

-- b"key expansion"
abbrev pub key_expansion_label : List ℕ
key_expansion_label =
    0x6b ∷ 0x65 ∷ 0x79 ∷ 0x20 ∷ 0x65 ∷ 0x78 ∷ 0x70 ∷ 0x61 ∷ 0x6e ∷ 0x73 ∷ 0x69 ∷ 0x6f ∷ 0x6e ∷ []

abbrev pub client_finished_label : List ℕ
client_finished_label =
    0x63 ∷ 0x6c ∷ 0x69 ∷ 0x65 ∷ 0x6e ∷ 0x74 ∷ 0x20 ∷ 0x66 ∷ 0x69 ∷ 0x6e ∷ 0x69 ∷ 0x73 ∷ 0x68 ∷ 0x65
    ∷ 0x64 ∷ []

abbrev pub server_finished_label : List ℕ
server_finished_label =
    0x73 ∷ 0x65 ∷ 0x72 ∷ 0x76 ∷ 0x65 ∷ 0x72 ∷ 0x20 ∷ 0x66 ∷ 0x69 ∷ 0x6e ∷ 0x69 ∷ 0x73 ∷ 0x68 ∷ 0x65
    ∷ 0x64 ∷ []

pub record KeyBlock : Type 0 where
  pub client_mac_key : List ℕ
  pub server_mac_key : List ℕ
  pub client_enc_key : List ℕ
  pub server_enc_key : List ℕ
  pub client_iv : List ℕ
  pub server_iv : List ℕ

-- The closure `take`: `n` bytes of the block at an offset.
abbrev pub slice : List ℕ → ℕ → ℕ → List ℕ
slice block off n = take n (drop off block)

module _ (streebog256 : List ℕ → List ℕ) where
  -- The key as one block: hashed where it is too long, then filled with zeros.
  unfoldable pub hmac_block : List ℕ → List ℕ
  hmac_block key =
      if ltb block_len (length key)
      then (streebog256 key ++ replicate (block_len - mac_len) 0)
      else (key ++ replicate (block_len - length key) 0)

  unfoldable pub hmac_streebog256 : List ℕ → List ℕ → List ℕ
  unfolding hmac_block
  hmac_streebog256 key message =
      let block = hmac_block key in
      let ipad = map (λ b. bit_xor b 0x36) block in
      let opad = map (λ b. bit_xor b 0x5c) block in
      streebog256 (opad ++ streebog256 (ipad ++ message))

  -- The loop of `p_hash`, where `remaining` is `out.len() - written`.
  unfoldable pub p_hash_loop : ℕ → List ℕ → List ℕ → List ℕ → ℕ → List ℕ
  p_hash_loop zero secret seed a remaining = []
  p_hash_loop (suc fuel) secret seed a remaining =
      let block = hmac_streebog256 secret (a ++ seed) in
      let count = min remaining mac_len in
      let rest = p_hash_loop fuel secret seed (hmac_streebog256 secret a) (remaining - count) in
      if remaining == 0 then [] else (take count block ++ rest)

  -- A round writes at least one byte, so `out_len` rounds are enough.
  unfoldable pub p_hash : List ℕ → List ℕ → ℕ → List ℕ
  unfolding p_hash_loop
  p_hash secret seed out_len =
      p_hash_loop out_len secret seed (hmac_streebog256 secret seed) out_len

  unfoldable pub prf : List ℕ → List ℕ → List ℕ → ℕ → List ℕ
  unfolding p_hash
  prf secret label seed out_len = p_hash secret (label ++ seed) out_len

  unfoldable pub master_secret : List ℕ → List ℕ → List ℕ → List ℕ
  unfolding prf
  master_secret premaster_secret client_random server_random =
      prf premaster_secret master_secret_label (client_random ++ server_random) master_secret_len

  unfoldable pub key_block : List ℕ → List ℕ → List ℕ → KeyBlock
  unfolding prf
  key_block ms client_random server_random =
      let block = prf ms key_expansion_label (server_random ++ client_random) key_block_len in
      record {
        client_mac_key = slice block 0 mac_key_len;
        server_mac_key = slice block 32 mac_key_len;
        client_enc_key = slice block 64 enc_key_len;
        server_enc_key = slice block 96 enc_key_len;
        client_iv = slice block 128 fixed_iv_len;
        server_iv = slice block 136 fixed_iv_len;
      }

  unfoldable pub finished_verify_data : List ℕ → List ℕ → List ℕ → List ℕ
  unfolding prf
  finished_verify_data ms label handshake_hash = prf ms label handshake_hash verify_data_len
