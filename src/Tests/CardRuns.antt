-- ===== src/Tests/CardRuns.antt =====
-- The card's commands and blocks at concrete inputs.
use crypto_kiddie.Prelude.{
  some, ◌<◌, ◌⊎◌, ℕ, ◌≡◌, ◌≤◌, refl, arith, List, [], ◌∷◌, ◌++◌, length, true, ok, err,
  chunks_exact, flatten,
}
use crypto_kiddie.Card.Apdu.{apdu_bytes, extended_length}
use crypto_kiddie.Card.Ccid.{
  RdrDataBlock, parse_data_block, redacted_apdu_bytes_for_log, xfr_bytes, new_xfr_block,
}
use crypto_kiddie.Card.Rutoken.{
  verify_pin, select_master_file, pubkey_to_token_point, manage_security_environment_for_vko,
}
use crypto_kiddie.Card.Encoding.{
  read_apdu, read_apdu-apdu_bytes, parse_data_block-block_bytes, block_bytes,
}
use crypto_kiddie.Card.Points.{pubkey_to_token_point-reverse}
use crypto_kiddie.Card.Privacy.{redacted_apdu_bytes_for_log-verify_pin}

abbrev pin : List ℕ
pin = 49 ∷ 50 ∷ 51 ∷ 52 ∷ []

redacted_apdu_bytes_for_log-verify_pin_example :
    redacted_apdu_bytes_for_log (verify_pin pin)
    ≡ ok (0x00 ∷ 0x20 ∷ 0x00 ∷ 0x02 ∷ 4 ∷ 42 ∷ 42 ∷ 42 ∷ 42 ∷ [], true)
redacted_apdu_bytes_for_log-verify_pin_example =
    redacted_apdu_bytes_for_log-verify_pin pin (omega arith) (omega arith)

read_apdu-apdu_bytes_example :
    (apdu_bytes (verify_pin pin) ≡ err extended_length) × (256 ≤ length (verify_pin pin).payload)
    ⊎ ((bytes : List ℕ) × (length (verify_pin pin).payload < 256)
        × (apdu_bytes (verify_pin pin) ≡ ok bytes)
        × (read_apdu bytes ≡ some (verify_pin pin)))
read_apdu-apdu_bytes_example = read_apdu-apdu_bytes (verify_pin pin)

abbrev block : RdrDataBlock
block = record {
  slot = 0;
  sequence = 3;
  status = 0;
  error = 0;
  chain_param = 0;
  payload = 0x90 ∷ 0x00 ∷ [];
}

parse_data_block-block_bytes_example : parse_data_block (block_bytes block ++ (7 ∷ [])) ≡ ok block
parse_data_block-block_bytes_example = parse_data_block-block_bytes block (7 ∷ []) (omega arith)

xfr_kat :
    xfr_bytes (new_xfr_block 0 7 select_master_file)
    ≡ ok (
        0x6F ∷ 7 ∷ 0 ∷ 0 ∷ 0 ∷ 0 ∷ 7 ∷ 0 ∷ 0 ∷ 0 ∷ 0x00 ∷ 0xA4 ∷ 0x00 ∷ 0x0C ∷ 2 ∷ 0x3F ∷ 0x00 ∷ [])
unfolding xfr_bytes select_master_file
xfr_kat = refl

vko_kat :
    apdu_bytes (manage_security_environment_for_vko 1 0)
    ≡ ok (0x00 ∷ 0x22 ∷ 0x41 ∷ 0xB8 ∷ 6 ∷ 0x95 ∷ 0x01 ∷ 0x40 ∷ 0x84 ∷ 0x01 ∷ 1 ∷ [])
unfolding apdu_bytes manage_security_environment_for_vko
vko_kat = refl

point_kat : pubkey_to_token_point (1 ∷ 2 ∷ 3 ∷ 4 ∷ []) 2 ≡ ok (2 ∷ 1 ∷ 4 ∷ 3 ∷ [])
unfolding pubkey_to_token_point chunks_exact flatten
point_kat = refl

pubkey_to_token_point-reverse_example :
    pubkey_to_token_point (1 ∷ 2 ∷ 3 ∷ 4 ∷ []) 2 ≡ ok (2 ∷ 1 ∷ 4 ∷ 3 ∷ [])
pubkey_to_token_point-reverse_example =
    pubkey_to_token_point-reverse 2 (1 ∷ 2 ∷ []) (3 ∷ 4 ∷ []) (omega arith) refl refl
