-- ===== src/Login/Certificates.antt =====
-- src/gost_login.rs: the server's point and its algorithm, out of the server's certificate.
pub mod Found
use crypto_kiddie.Prelude.{
  ℕ, zero, suc, ◌+◌, List, [], ◌∷◌, if◌then◌else◌, ◌==◌, take, drop, Result, ok, err, and_then,
  map_err,
}
use crypto_kiddie.Der.{DerError, Tlv, der_peek, der_read_tlv, der_skip, der_expect_sequence}
use crypto_kiddie.Login.Messages.{
  LoginError, Fault, protocol, malformed, not_a_bit_string, empty_public_key, unused_bits,
  not_an_octet_string, not_a_spki_sequence,
}

abbrev pub der_fault : DerError → LoginError
der_fault e = protocol (malformed e)

-- Consecutive calls of `der_skip`, each at the position that the one before gives.
unfoldable pub skip_fields : ℕ → List ℕ → ℕ → Result DerError ℕ
unfolding der_skip
skip_fields zero bytes pos = ok pos
skip_fields (suc count) bytes pos = and_then (der_skip bytes pos) (skip_fields count bytes)

-- The position of subjectPublicKeyInfo: an optional version and five fields stand before it.
unfoldable pub spki_position : List ℕ → Result DerError ℕ
unfolding der_peek skip_fields
spki_position tbs =
    and_then (der_peek tbs 0) (λ first. skip_fields (if first.tag == 0xA0 then 6 else 5) tbs 0)

-- The content of subjectPublicKeyInfo, which both functions begin with.
unfoldable pub spki_content : List ℕ → Result DerError (List ℕ)
unfolding der_expect_sequence der_read_tlv spki_position
spki_content cert_der = and_then (der_expect_sequence cert_der) (λ cert.
    and_then (der_read_tlv cert 0) (λ tbs.
      and_then (spki_position tbs.0)
        (λ pos. and_then (der_read_tlv tbs.0 pos) (λ spki. ok spki.0))))

-- The point inside the bit string: no unused bits, and an octet string around it.
unfoldable pub point_of : List ℕ → Result LoginError (List ℕ)
unfolding der_peek
point_of [] = err (protocol empty_public_key)
point_of (unused ∷ inner) =
    if unused == 0x00
    then and_then (map_err der_fault (der_peek inner 0)) (λ octets.
      if octets.tag == 0x04 then ok octets.content else err (protocol not_an_octet_string))
    else err (protocol unused_bits)

unfoldable pub extract_subject_public_point : List ℕ → Result LoginError (List ℕ)
unfolding spki_content der_skip der_peek point_of
extract_subject_public_point cert_der =
    and_then (map_err der_fault (spki_content cert_der)) (λ spki.
      and_then (map_err der_fault (der_skip spki 0)) (λ after_alg.
        and_then (map_err der_fault (der_peek spki after_alg)) (λ key.
          if key.tag == 0x03 then point_of key.content else err (protocol not_a_bit_string))))

unfoldable pub extract_spki_algorithm : List ℕ → Result LoginError (List ℕ)
unfolding spki_content der_peek
extract_spki_algorithm cert_der = and_then (map_err der_fault (spki_content cert_der)) (λ spki.
    and_then (map_err der_fault (der_peek spki 0)) (λ algorithm.
      if algorithm.tag == 0x30
      then ok (take algorithm.next spki)
      else err (protocol not_a_spki_sequence)))
