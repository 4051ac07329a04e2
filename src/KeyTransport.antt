-- ===== src/KeyTransport.antt =====
-- src/gost_keytransport.rs: the ClientKeyExchange of the suite 0xFF85.
use crypto_kiddie.Prelude.{ℕ, List, [], ◌∷◌, ◌++◌, Option, none, some, take}
use crypto_kiddie.KeyWrap.{WrappedKey, gost_key_wrap}
use crypto_kiddie.Der.{der_tlv, der_octet_string, der_oid, der_sequence}

abbrev pub param_z_oid : List ℕ
param_z_oid = 1 ∷ 2 ∷ 643 ∷ 7 ∷ 1 ∷ 2 ∷ 5 ∷ 1 ∷ 1 ∷ []

unfoldable pub encode_session_encrypted_key : WrappedKey → List ℕ
unfolding der_sequence der_octet_string
encode_session_encrypted_key wrapped =
    der_sequence (der_octet_string wrapped.cek_enc ++ der_octet_string wrapped.cek_mac)

-- The optional field `ephemeralPublicKey`.
abbrev pub ephemeral_field : Option (List ℕ) → List ℕ
ephemeral_field none = []
ephemeral_field (some spki) = der_tlv 0xA0 spki

unfoldable pub encode_transport_parameters : List ℕ → List ℕ → Option (List ℕ) → List ℕ
unfolding der_tlv der_oid der_octet_string
encode_transport_parameters param_set_oid ukm ephemeral_spki_content =
    der_tlv 0xA0
      ((der_oid param_set_oid ++ ephemeral_field ephemeral_spki_content) ++ der_octet_string ukm)

unfoldable pub encode_key_transport_with_param_set : WrappedKey → List ℕ → Option (List ℕ) → List ℕ
unfolding der_sequence encode_session_encrypted_key encode_transport_parameters
encode_key_transport_with_param_set wrapped param_set_oid ephemeral_spki_content = der_sequence (
    encode_session_encrypted_key wrapped
    ++ encode_transport_parameters param_set_oid wrapped.ukm ephemeral_spki_content)

unfoldable pub encode_key_transport : WrappedKey → List ℕ
unfolding encode_key_transport_with_param_set
encode_key_transport wrapped = encode_key_transport_with_param_set wrapped param_z_oid none

module _ (streebog256 : List ℕ → List ℕ) where
  unfoldable pub derive_shared_ukm : List ℕ → List ℕ → List ℕ
  derive_shared_ukm client_random server_random =
      take 8 (streebog256 (client_random ++ server_random))

  unfoldable pub build_client_key_exchange :
      List ℕ → List ℕ → List ℕ → List ℕ → Option (List ℕ) → List ℕ
  unfolding derive_shared_ukm der_sequence encode_key_transport_with_param_set
  build_client_key_exchange kek client_random server_random premaster ephemeral_spki_content =
      let ukm = derive_shared_ukm client_random server_random in
      let wrapped = gost_key_wrap kek ukm premaster in
      der_sequence (encode_key_transport_with_param_set wrapped param_z_oid ephemeral_spki_content)
