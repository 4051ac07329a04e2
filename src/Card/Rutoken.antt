-- ===== src/Card/Rutoken.antt =====
-- src/lib.rs, module rutoken: the commands of the token, and its byte orders.
use crypto_kiddie.Prelude.{
  ℕ, ◌*◌, ◌/◌, ◌%◌, bit_or, List, [], ◌∷◌, ◌++◌, ◌||◌, not, if◌then◌else◌, ◌==◌, length, map,
  flatten, reverse, chunks_exact, Result, ok, err,
}
use crypto_kiddie.Card.Apdu.{CommandApdu, CardError, bad_public_key_length, new, with_data, with_le}

abbrev pub admin_pin_reference : ℕ
admin_pin_reference = 1

abbrev pub user_pin_reference : ℕ
user_pin_reference = 2

unfoldable pub select_master_file : CommandApdu
select_master_file = with_data (new 0x00 0xA4 0x00 0x0C) (0x3F ∷ 0x00 ∷ [])

unfoldable pub select_private_key_file : ℕ → CommandApdu
select_private_key_file key_id =
    with_data (new 0x00 0xA4 0x08 0x0C)
      (0x10 ∷ 0x00 ∷ 0x10 ∷ 0x00 ∷ 0x60 ∷ 0x02 ∷ 0x00 ∷ key_id ∷ [])

unfoldable pub select_se_rsf_file : ℕ → CommandApdu
select_se_rsf_file key_id =
    with_data (new 0x00 0xA4 0x08 0x0C)
      (0x10 ∷ 0x00 ∷ 0x10 ∷ 0x00 ∷ 0x60 ∷ 0x05 ∷ 0x00 ∷ key_id ∷ [])

unfoldable pub create_se_rsf_file_for_vko : ℕ → ℕ → List ℕ → CommandApdu
create_se_rsf_file_for_vko key_id size conditions =
    let fcp =
      (0x80 ∷ 0x02 ∷ 0x00 ∷ size ∷ 0x82 ∷ 0x02 ∷ 0x10 ∷ 0x00 ∷ 0x83 ∷ 0x02 ∷ 0x00 ∷ key_id ∷ 0x85
        ∷ 0x06 ∷ 0x1F ∷ 0x00 ∷ 0x00 ∷ 0xFF ∷ 0x00 ∷ 0x00 ∷ 0x86 ∷ 0x0F ∷ 0x47 ∷ [])
      ++ conditions in
    with_data (new 0x00 0xE0 0x00 0x00) (0x62 ∷ length fcp ∷ fcp)

-- The letters A to C, E to H and T.
unfoldable pub se_rsf_letter_gate : ℕ → ℕ
se_rsf_letter_gate b =
    if (b == 65) || (b == 70)
    then 0x20
    else (if (b == 66) || (b == 71)
        then 0x30
        else (if (b == 67) || (b == 72)
            then 0x40
            else (if b == 84 then 0x10 else (if b == 69 then 0x50 else 0x00))))

unfoldable pub create_se_rsf_file_csp : ℕ → ℕ → ℕ → CommandApdu
unfolding se_rsf_letter_gate
create_se_rsf_file_csp key_id coord_len prop_flags =
    let size = (coord_len * 2) % 256 in
    let r0 = bit_or (if coord_len == 0x20 then 0x03 else 0x43) 0x10 in
    let hh = se_rsf_letter_gate coord_len in
    let fcp =
      0x82 ∷ 0x02 ∷ 0x10 ∷ 0x00 ∷ 0x80 ∷ 0x02 ∷ 0x00 ∷ size ∷ 0x83 ∷ 0x02 ∷ 0x00 ∷ key_id ∷ 0x85
      ∷ 0x06 ∷ r0 ∷ hh ∷ prop_flags ∷ 0xFF ∷ 0x00 ∷ 0x00 ∷ 0x86 ∷ 0x0F ∷ 0x46 ∷ 0x00 ∷ 0x02 ∷ 0x00
      ∷ 0x00 ∷ 0x00 ∷ 0x00 ∷ 0x00 ∷ 0x00 ∷ 0x00 ∷ 0x00 ∷ 0x00 ∷ 0x00 ∷ 0x00 ∷ 0x00 ∷ [] in
    with_data (new 0x00 0xE0 0x00 0x00) (0x62 ∷ length fcp ∷ fcp)

unfoldable pub certificate_file_id : ℕ → ℕ
certificate_file_id key_id = bit_or 0x0300 key_id

-- `(id >> 8) as u8` and `id as u8`
abbrev pub id_bytes : ℕ → List ℕ
id_bytes id = id / 256 % 256 ∷ id % 256 ∷ []

unfoldable pub select_certificate_file : ℕ → CommandApdu
unfolding certificate_file_id
select_certificate_file key_id =
    with_data (new 0x00 0xA4 0x08 0x0C)
      ((0x10 ∷ 0x00 ∷ 0x10 ∷ 0x00 ∷ 0x60 ∷ 0x04 ∷ []) ++ id_bytes (certificate_file_id key_id))

unfoldable pub select_file_by_path : List ℕ → CommandApdu
select_file_by_path path = with_data (new 0x00 0xA4 0x08 0x0C) path

unfoldable pub select_file_by_id : ℕ → CommandApdu
select_file_by_id file_id = with_data (new 0x00 0xA4 0x00 0x0C) (id_bytes file_id)

-- The commands of each sequence; the labels are for messages only.
unfoldable pub private_key_file_select_sequences : ℕ → List (List CommandApdu)
unfolding select_private_key_file select_file_by_path select_file_by_id
private_key_file_select_sequences key_id =
    let pkcs15_private_key_id = bit_or 0x0100 key_id in
    (select_private_key_file key_id ∷ [])
    ∷ (select_file_by_path
          (0x3F ∷ 0x00 ∷ 0x10 ∷ 0x00 ∷ 0x10 ∷ 0x00 ∷ 0x60 ∷ 0x02 ∷ 0x00 ∷ key_id ∷ [])
        ∷ [])
    ∷ (select_file_by_id 0x1000
        ∷ select_file_by_id 0x1000
        ∷ select_file_by_id 0x6002
        ∷ select_file_by_id key_id
        ∷ [])
    ∷ (select_file_by_path ((0x50 ∷ 0x00 ∷ []) ++ id_bytes pkcs15_private_key_id) ∷ [])
    ∷ (select_file_by_id 0x5000 ∷ select_file_by_id pkcs15_private_key_id ∷ [])
    ∷ []

unfoldable pub certificate_file_select_sequences : ℕ → List (List CommandApdu)
unfolding select_certificate_file select_file_by_path select_file_by_id certificate_file_id
certificate_file_select_sequences key_id =
    let certificate_id = certificate_file_id key_id in
    (select_certificate_file key_id ∷ [])
    ∷ (select_file_by_path
          ((0x3F ∷ 0x00 ∷ 0x10 ∷ 0x00 ∷ 0x10 ∷ 0x00 ∷ 0x60 ∷ 0x04 ∷ []) ++ id_bytes certificate_id)
        ∷ [])
    ∷ (select_file_by_id 0x1000
        ∷ select_file_by_id 0x1000
        ∷ select_file_by_id 0x6004
        ∷ select_file_by_id certificate_id
        ∷ [])
    ∷ (select_file_by_path ((0x50 ∷ 0x00 ∷ []) ++ id_bytes certificate_id) ∷ [])
    ∷ (select_file_by_id 0x5000 ∷ select_file_by_id certificate_id ∷ [])
    ∷ []

unfoldable pub verify_pin : List ℕ → CommandApdu
verify_pin pin = with_data (new 0x00 0x20 0x00 user_pin_reference) pin

unfoldable pub verify_pin_status : CommandApdu
verify_pin_status = new 0x00 0x20 0x00 user_pin_reference

unfoldable pub logout : CommandApdu
logout = new 0x80 0x40 0x00 0x00

unfoldable pub manage_security_environment_for_signing : ℕ → CommandApdu
manage_security_environment_for_signing key_id =
    with_data (new 0x00 0x22 0x41 0xB6) (0x84 ∷ 0x01 ∷ key_id ∷ [])

unfoldable pub pso_compute_digital_signature : List ℕ → ℕ → CommandApdu
pso_compute_digital_signature digest signature_len =
    with_le (with_data (new 0x00 0x2A 0x9E 0x9A) digest) signature_len

unfoldable pub manage_security_environment_for_vko_with_ukm : ℕ → ℕ → List ℕ → CommandApdu
manage_security_environment_for_vko_with_ukm key_id algo ukm =
    let mechanism = if algo == 0 then [] else (0x80 ∷ 0x01 ∷ algo ∷ []) in
    let keying = if length ukm == 0 then [] else (0x87 ∷ length ukm % 256 ∷ ukm) in
    with_data (new 0x00 0x22 0x41 0xB8)
      (((0x95 ∷ 0x01 ∷ 0x40 ∷ 0x84 ∷ 0x01 ∷ key_id ∷ []) ++ mechanism) ++ keying)

unfoldable pub manage_security_environment_for_vko : ℕ → ℕ → CommandApdu
unfolding manage_security_environment_for_vko_with_ukm
manage_security_environment_for_vko key_id algo =
    manage_security_environment_for_vko_with_ukm key_id algo []

unfoldable pub pso_key_agreement : List ℕ → CommandApdu
pso_key_agreement peer_token_point = with_data (new 0x00 0x2A 0x80 0x86) peer_token_point

unfoldable pub pubkey_to_token_point : List ℕ → ℕ → Result CardError (List ℕ)
pubkey_to_token_point pubkey_xy coord_len =
    if (coord_len == 0) || not (length pubkey_xy == coord_len * 2)
    then err bad_public_key_length
    else ok (flatten (map reverse (chunks_exact coord_len pubkey_xy)))

unfoldable pub read_binary : ℕ → ℕ → CommandApdu
read_binary offset le = with_le (new 0x00 0xB0 (offset / 256 % 256) (offset % 256)) le

unfoldable pub signature_from_token : List ℕ → List ℕ
signature_from_token signature = reverse signature
