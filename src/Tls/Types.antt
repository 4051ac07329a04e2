-- ===== src/Tls/Types.antt =====
-- The enumerations of src/tls.rs with their numbers on the wire.
use crypto_kiddie.Prelude.{ℕ, Option, none, some, if◌then◌else◌, ◌==◌, ◌≡◌, ◌↔◌, arith}

pub data ContentType : Type 0 where
  change_cipher_spec alert handshake application_data : ContentType

-- `content_type as u8`
abbrev pub content_type_code : ContentType → ℕ
content_type_code change_cipher_spec = 20
content_type_code alert = 21
content_type_code handshake = 22
content_type_code application_data = 23

unfoldable pub content_type_from_u8 : ℕ → Option ContentType
content_type_from_u8 value =
    if value == 20
    then some change_cipher_spec
    else (if value == 21
        then some alert
        else (if value == 22
            then some handshake
            else (if value == 23 then some application_data else none)))

pub record ProtocolVersion : Type 0 where
  pub major : ℕ
  pub minor : ℕ

abbrev pub tls1_2 : ProtocolVersion
tls1_2 = record { major = 3; minor = 3 }

abbrev pub tls1_0 : ProtocolVersion
tls1_0 = record { major = 3; minor = 1 }

pub data HandshakeType : Type 0 where
  client_hello server_hello certificate server_key_exchange certificate_request : HandshakeType
  server_hello_done certificate_verify client_key_exchange finished : HandshakeType

-- `msg_type as u8`
abbrev pub handshake_type_code : HandshakeType → ℕ
handshake_type_code client_hello = 1
handshake_type_code server_hello = 2
handshake_type_code certificate = 11
handshake_type_code server_key_exchange = 12
handshake_type_code certificate_request = 13
handshake_type_code server_hello_done = 14
handshake_type_code certificate_verify = 15
handshake_type_code client_key_exchange = 16
handshake_type_code finished = 20

unfoldable pub handshake_type_from_u8 : ℕ → Option HandshakeType
handshake_type_from_u8 value =
    if value == 1
    then some client_hello
    else (if value == 2
        then some server_hello
        else (if value == 11
            then some certificate
            else (if value == 12
                then some server_key_exchange
                else (if value == 13
                    then some certificate_request
                    else (if value == 14
                        then some server_hello_done
                        else (if value == 15
                            then some certificate_verify
                            else (if value == 16
                                then some client_key_exchange
                                else (if value == 20 then some finished else none))))))))

-- A byte is read as a content type exactly where it is that type's number.
pub content_type_from_u8-code_iff :
    (value : ℕ) (t : ContentType)
    → (content_type_from_u8 value ≡ some t) ↔ (value ≡ content_type_code t)
unfolding content_type_from_u8
content_type_from_u8-code_iff value change_cipher_spec = ground arith
content_type_from_u8-code_iff value _ = ground arith

-- A byte is read as a handshake type exactly where it is that type's number.
pub handshake_type_from_u8-code_iff :
    (value : ℕ) (t : HandshakeType)
    → (handshake_type_from_u8 value ≡ some t) ↔ (value ≡ handshake_type_code t)
unfolding handshake_type_from_u8
handshake_type_from_u8-code_iff value client_hello = ground arith
handshake_type_from_u8-code_iff value _ = ground arith
