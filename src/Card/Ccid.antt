-- ===== src/Card/Ccid.antt =====
-- src/lib.rs, module ccid: the blocks and what the exchange log writes of them.
use crypto_kiddie.Prelude.{
  ℕ, ◌+◌, List, [], ◌∷◌, ◌++◌, Bool, true, false, ◌||◌, if◌then◌else◌, ltb, ◌==◌, length, take,
  drop, get_or, replicate, le_bytes, le_value, bit_and, Result, ok, err, and_then,
}
use crypto_kiddie.Card.Apdu.{
  CommandApdu, apdu_bytes, CardError, block_too_short, unexpected_block, block_truncated,
}

abbrev pub pc_to_rdr_xfrblock : ℕ
pc_to_rdr_xfrblock = 0x6F

abbrev pub pc_to_rdr_iccpoweron : ℕ
pc_to_rdr_iccpoweron = 0x62

abbrev pub rdr_to_pc_datablock : ℕ
rdr_to_pc_datablock = 0x80

pub record XfrBlock : Type 0 where
  pub slot : ℕ
  pub sequence : ℕ
  pub block_waiting_integer : ℕ
  pub level_parameter : ℕ
  pub apdu : CommandApdu

abbrev pub new_xfr_block : ℕ → ℕ → CommandApdu → XfrBlock
new_xfr_block slot sequence apdu = record {
  slot = slot;
  sequence = sequence;
  block_waiting_integer = 0;
  level_parameter = 0;
  apdu = apdu;
}

-- An APDU has at most 261 bytes, so that `u32::try_from` does not fail.
unfoldable pub xfr_bytes : XfrBlock → Result CardError (List ℕ)
unfolding apdu_bytes
xfr_bytes block = and_then (apdu_bytes block.apdu) (λ apdu. ok (
    pc_to_rdr_xfrblock
    ∷ (le_bytes 4 (length apdu)
        ++ (block.slot
            ∷ block.sequence
            ∷ block.block_waiting_integer
            ∷ (le_bytes 2 block.level_parameter ++ apdu)))))

pub record IccPowerOn : Type 0 where
  pub slot : ℕ
  pub sequence : ℕ
  pub power_select : ℕ

abbrev pub new_power_on : ℕ → ℕ → IccPowerOn
new_power_on slot sequence = record { slot = slot; sequence = sequence; power_select = 0 }

unfoldable pub power_on_bytes : IccPowerOn → List ℕ
power_on_bytes block =
    pc_to_rdr_iccpoweron ∷ 0 ∷ 0 ∷ 0 ∷ 0 ∷ block.slot ∷ block.sequence ∷ block.power_select ∷ 0 ∷ 0
    ∷ []

pub record RdrDataBlock : Type 0 where
  pub slot : ℕ
  pub sequence : ℕ
  pub status : ℕ
  pub error : ℕ
  pub chain_param : ℕ
  pub payload : List ℕ

unfoldable pub parse_data_block : List ℕ → Result CardError RdrDataBlock
parse_data_block bytes =
    let data_len = le_value (take 4 (drop 1 bytes)) in
    if ltb (length bytes) 10
    then err block_too_short
    else (if get_or bytes 0 0 == rdr_to_pc_datablock
        then (if ltb (length bytes) (10 + data_len)
            then err block_truncated
            else ok (record {
              slot = get_or bytes 5 0;
              sequence = get_or bytes 6 0;
              status = get_or bytes 7 0;
              error = get_or bytes 8 0;
              chain_param = get_or bytes 9 0;
              payload = take data_len (drop 10 bytes);
            }))
        else err unexpected_block)

unfoldable pub block_is_success : RdrDataBlock → Bool
block_is_success block = bit_and block.status 0xC0 == 0

-- The bytes and whether something was overwritten, with `b'*'` = 42.
unfoldable pub redact_verify_pin_data : List ℕ → ℕ → ℕ → List ℕ × Bool
redact_verify_pin_data bytes apdu_offset data_len =
    let data_offset = apdu_offset + 5 in
    if (data_len == 0) || ltb (length bytes) (apdu_offset + 5 + data_len)
    then (bytes, false)
    else (if get_or bytes (apdu_offset + 1) 0 == 0x20
        then (
          take data_offset bytes ++ (replicate data_len 42 ++ drop (data_offset + data_len) bytes),
          true,
        )
        else (bytes, false))

unfoldable pub redacted_apdu_bytes_for_log : CommandApdu → Result CardError (List ℕ × Bool)
unfolding apdu_bytes redact_verify_pin_data
redacted_apdu_bytes_for_log apdu =
    and_then (apdu_bytes apdu) (λ bytes. ok (redact_verify_pin_data bytes 0 (length apdu.payload)))

unfoldable pub redacted_ccid_block_for_log : CommandApdu → List ℕ → List ℕ × Bool
unfolding redact_verify_pin_data
redacted_ccid_block_for_log apdu bytes = redact_verify_pin_data bytes 10 (length apdu.payload)
