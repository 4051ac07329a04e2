-- ===== src/Login/Messages.antt =====
-- src/gost_login.rs: the parameters, the errors and the messages that the driver builds itself.
use crypto_kiddie.Prelude.{
  ℕ, ◌+◌, List, ◌∷◌, ◌++◌, if◌then◌else◌, ltb, length, take, drop, be_bytes, be_value, Result, ok,
  err,
}
use crypto_kiddie.Tls.Types.{ContentType, HandshakeType, handshake}
use crypto_kiddie.Tls.Wire.{TlsError}
use crypto_kiddie.Tls.Transport.{TlsTransport, send_record}
use crypto_kiddie.Client.{ClientHandshake, HandshakeError, frame}
use crypto_kiddie.Der.{DerError}

-- The texts of `Protocol`, as constructors.
pub data Fault : Type 0 where
  server_hello_too_short certificate_too_short certificate_list_range : Fault
  empty_certificate_list certificate_range : Fault
  unexpected_message : ℕ → Fault
  no_certificate no_server_hello_message record_crypto_unavailable : Fault
  malformed : DerError → Fault
  not_a_bit_string empty_public_key unused_bits not_an_octet_string not_a_spki_sequence : Fault
  server_alert : ℕ → ℕ → Fault
  unexpected_record : ContentType → Fault
  decrypt_failed malformed_finished : Fault

pub data LoginError : Type 0 where
  transport : TlsError → LoginError
  handshake_failed : HandshakeError → LoginError
  protocol : Fault → LoginError
  vko_failed sign_failed : LoginError

pub record LoginParams : Type 0 where
  pub server_name : List ℕ
  pub client_random : List ℕ
  pub premaster : List ℕ
  pub client_cert_chain : List (List ℕ)
  pub cipher_suites : List ℕ

pub record LoginSession : Type 0 where
  pub handshake : ClientHandshake
  pub server_leaf_cert : List ℕ

unfoldable pub send_handshake : TlsTransport → HandshakeType → List ℕ → TlsTransport
unfolding frame send_record
send_handshake t msg_type body = send_record t handshake (frame msg_type body)

unfoldable pub sni_extension : List ℕ → List ℕ
sni_extension host =
    let name_entry = 0x00 ∷ (be_bytes 2 (length host) ++ host) in
    let server_name_list = be_bytes 2 (length name_entry) ++ name_entry in
    be_bytes 2 0 ++ (be_bytes 2 (length server_name_list) ++ server_name_list)

-- `get(3..3 + n)` fails where the slice is out of range.
unfoldable pub first_certificate : List ℕ → Result LoginError (List ℕ)
first_certificate body =
    let list_len = be_value (take 3 body) in
    let list = take list_len (drop 3 body) in
    let cert_len = be_value (take 3 list) in
    if ltb (length body) 3
    then err (protocol certificate_too_short)
    else (if ltb (length body) (3 + list_len)
        then err (protocol certificate_list_range)
        else (if ltb (length list) 3
            then err (protocol empty_certificate_list)
            else (if ltb (length list) (3 + cert_len)
                then err (protocol certificate_range)
                else ok (take cert_len (drop 3 list)))))

-- The body of `CertificateVerify` in `run_login`: the pair EE EE, the length and the signature.
unfoldable pub signed_body : List ℕ → List ℕ
signed_body signature = 0xEE ∷ 0xEE ∷ (be_bytes 2 (length signature) ++ signature)
