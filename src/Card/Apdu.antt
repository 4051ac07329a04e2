-- ===== src/Card/Apdu.antt =====
-- src/lib.rs, module apdu. The field `data` is named `payload`.
use crypto_kiddie.Prelude.{
  ℕ, ◌+◌, ◌-◌, List, [], ◌∷◌, ◌++◌, Bool, ◌&&◌, if◌then◌else◌, ltb, ◌==◌, Option, none, some,
  length, take, get_or, Result, ok, err,
}

pub record CommandApdu : Type 0 where
  pub cla : ℕ
  pub ins : ℕ
  pub p1 : ℕ
  pub p2 : ℕ
  pub payload : List ℕ
  pub le : Option ℕ

abbrev pub new : ℕ → ℕ → ℕ → ℕ → CommandApdu
new cla ins p1 p2 = record { cla = cla; ins = ins; p1 = p1; p2 = p2; payload = []; le = none }

abbrev pub with_data : CommandApdu → List ℕ → CommandApdu
with_data apdu payload = record apdu { payload = payload }

abbrev pub with_le : CommandApdu → ℕ → CommandApdu
with_le apdu le = record apdu { le = some le }

pub data CardError : Type 0 where
  extended_length response_too_short : CardError
  block_too_short unexpected_block block_truncated : CardError
  bad_public_key_length : CardError

abbrev pub data_field : List ℕ → List ℕ
data_field [] = []
data_field (b ∷ bs) = length (b ∷ bs) ∷ b ∷ bs

abbrev pub le_field : Option ℕ → List ℕ
le_field none = []
le_field (some le) = le ∷ []

unfoldable pub apdu_bytes : CommandApdu → Result CardError (List ℕ)
apdu_bytes apdu =
    if ltb 255 (length apdu.payload)
    then err extended_length
    else ok
        (apdu.cla ∷ apdu.ins ∷ apdu.p1 ∷ apdu.p2 ∷ (data_field apdu.payload ++ le_field apdu.le))

pub record ResponseApdu : Type 0 where
  pub payload : List ℕ
  pub sw1 : ℕ
  pub sw2 : ℕ

unfoldable pub parse_response : List ℕ → Result CardError ResponseApdu
parse_response bytes =
    let split = length bytes - 2 in
    if ltb (length bytes) 2
    then err response_too_short
    else ok (record {
      payload = take split bytes;
      sw1 = get_or bytes split 0;
      sw2 = get_or bytes (split + 1) 0;
    })

unfoldable pub is_success : ResponseApdu → Bool
is_success response = (response.sw1 == 0x90) && (response.sw2 == 0x00)
