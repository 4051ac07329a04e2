-- ===== src/Client.antt =====
-- src/gost_client.rs: the driver of the client handshake. What the token computes, the key
-- encryption key and the signature, are inputs, as in the code.
pub mod Steps
pub mod Verdict
pub mod Agreement
use crypto_kiddie.Prelude.{
  ℕ, ◌++◌, List, [], ◌∷◌, flatten, map, if◌then◌else◌, ◌==◌, Bool, Option, none, some, length,
  be_bytes, range, Result, ok, err, and_then, ok_or,
}
use crypto_kiddie.Tls.Types.{
  ProtocolVersion, HandshakeType, client_hello, server_hello, certificate, client_key_exchange,
  certificate_verify, finished,
}
use crypto_kiddie.Handshake
use crypto_kiddie.Handshake.{
  Transcript, push_message, build_client_hello, finished_body, frame_handshake,
}
use crypto_kiddie.KeyTransport.{build_client_key_exchange}
use crypto_kiddie.Prf
use mathlib.Core.Option
use crypto_kiddie.Prf.{KeyBlock, key_block, client_finished_label, server_finished_label}
use crypto_kiddie.Record
use crypto_kiddie.Record.{RecordCrypto}
use crypto_kiddie.KeyWrap.{diff_at}

-- The texts of `OutOfOrder` are constructors.
pub data MissingStep : Type 0 where
  server_random_not_recorded master_secret_not_derived : MissingStep

pub data HandshakeError : Type 0 where
  out_of_order : MissingStep → HandshakeError
  bad_server_finished : HandshakeError

pub record ClientHandshake : Type 0 where
  pub version : ProtocolVersion
  pub transcript : Transcript
  pub client_random : List ℕ
  pub server_random : Option (List ℕ)
  pub master_secret : Option (List ℕ)
  pub record_crypto : Option RecordCrypto

-- No result where `build_client_hello` fails on a session id of more than 32 bytes.
unfoldable pub start :
    ProtocolVersion → List ℕ → List ℕ → List ℕ → List ℕ → Option (ClientHandshake × List ℕ)
unfolding build_client_hello push_message Handshake.new
start version client_random session_id cipher_suites extensions =
    let params : Handshake.ClientHelloParams = record {
      version = version;
      random = client_random;
      session_id = session_id;
      cipher_suites = cipher_suites;
      extensions = extensions;
    } in
    Option.map
      (λ body. (
        record {
          version = version;
          transcript = (push_message Handshake.new client_hello body).0;
          client_random = client_random;
          server_random = none;
          master_secret = none;
          record_crypto = none;
        },
        body,
      ))
      (build_client_hello params)

unfoldable pub record_server_hello : ClientHandshake → List ℕ → List ℕ → ClientHandshake
unfolding push_message
record_server_hello hs server_random server_hello_body = record hs {
  server_random = some server_random;
  transcript = (push_message hs.transcript server_hello server_hello_body).0;
}

unfoldable pub record_incoming : ClientHandshake → HandshakeType → List ℕ → ClientHandshake
unfolding push_message
record_incoming hs msg_type body = record hs {
  transcript = (push_message hs.transcript msg_type body).0;
}

-- One entry of the list, behind its length in three bytes.
unfoldable pub certificate_entry : List ℕ → List ℕ
certificate_entry cert = be_bytes 3 (length cert) ++ cert

unfoldable pub certificate_body : List (List ℕ) → List ℕ
unfolding certificate_entry
certificate_body cert_chain =
    let list = flatten (map certificate_entry cert_chain) in be_bytes 3 (length list) ++ list

unfoldable pub client_certificate : ClientHandshake → List (List ℕ) → ClientHandshake × List ℕ
unfolding push_message certificate_body
client_certificate hs cert_chain =
    let body = certificate_body cert_chain in
    (record hs { transcript = (push_message hs.transcript certificate body).0 }, body)

unfoldable pub record_certificate_verify : ClientHandshake → List ℕ → ClientHandshake × List ℕ
unfolding push_message
record_certificate_verify hs signature_block = (
  record hs { transcript = (push_message hs.transcript certificate_verify signature_block).0 },
  signature_block,
)

unfoldable pub constant_time_eq12 : List ℕ → List ℕ → Bool
unfolding diff_at
constant_time_eq12 a b = diff_at a b (range 0 12) 0 == 0

unfoldable pub frame : HandshakeType → List ℕ → List ℕ
unfolding frame_handshake
frame msg_type body = frame_handshake msg_type body

-- The client's writing keys first, as in the call of `RecordCrypto::new`.
unfoldable pub client_record_crypto : KeyBlock → RecordCrypto
unfolding Record.new
client_record_crypto kb =
    Record.new kb.client_mac_key kb.client_enc_key kb.client_iv kb.server_mac_key kb.server_enc_key
      kb.server_iv

module _ (streebog256 : List ℕ → List ℕ) where
  unfoldable pub client_key_exchange_step :
      ClientHandshake
      → List ℕ
      → List ℕ
      → Option (List ℕ)
      → Result HandshakeError (ClientHandshake × List ℕ)
  unfolding push_message build_client_key_exchange client_record_crypto
  client_key_exchange_step hs kek premaster ephemeral_spki_content =
      and_then (ok_or (out_of_order server_random_not_recorded) hs.server_random) (λ server_random.
        let body =
          build_client_key_exchange streebog256 kek hs.client_random server_random premaster
            ephemeral_spki_content in
        let ms = Prf.master_secret streebog256 premaster hs.client_random server_random in
        let kb = key_block streebog256 ms hs.client_random server_random in
        ok (
          record hs {
            transcript = (push_message hs.transcript client_key_exchange body).0;
            master_secret = some ms;
            record_crypto = some (client_record_crypto kb);
          },
          body,
        ))

  unfoldable pub certificate_verify_digest : ClientHandshake → List ℕ
  certificate_verify_digest hs = Handshake.hash streebog256 hs.transcript

  unfoldable pub client_finished :
      ClientHandshake → Result HandshakeError (ClientHandshake × List ℕ)
  unfolding push_message finished_body
  client_finished hs =
      and_then (ok_or (out_of_order master_secret_not_derived) hs.master_secret) (λ ms.
        let vd = finished_body streebog256 ms client_finished_label hs.transcript in
        ok (record hs { transcript = (push_message hs.transcript finished vd).0 }, vd))

  unfoldable pub verify_server_finished : ClientHandshake → List ℕ → Result HandshakeError Unit
  unfolding finished_body constant_time_eq12
  verify_server_finished hs server_verify_data =
      and_then (ok_or (out_of_order master_secret_not_derived) hs.master_secret) (λ ms.
        let expected = finished_body streebog256 ms server_finished_label hs.transcript in
        if constant_time_eq12 expected server_verify_data then ok tt else err bad_server_finished)
