-- ===== src/Login/Driver.antt =====
-- src/gost_login.rs: `run_login`. The key agreement and the token's signature are parameters: the
-- first is `software_key_transport` of src/gost_vko.rs with its random source, the second the
-- closure `sign`. A write to the stream succeeds, so that the errors that are enriched with an alert
-- do not occur; the probes and the dumps of the code only report.
pub mod Begun
pub mod Finish
pub mod Flight
pub mod Heard
pub mod Honest
pub mod Reply
pub mod Taken
pub mod Traded
pub mod Trusted
pub mod Whole
use crypto_kiddie.Prelude.{
  ℕ, zero, suc, ◌+◌, ◌*◌, List, [], ◌∷◌, ◌++◌, Bool, true, false, ◌||◌, ◌&&◌, if◌then◌else◌, ltb,
  leb, ◌==◌, not, Option, none, some, length, take, drop, get_or, Result, ok, err, and_then, ok_or,
  map_err,
}
use mathlib.Core.Option
use crypto_kiddie.Tls.Types.{
  ContentType, change_cipher_spec, alert, handshake, application_data, content_type_code,
  ProtocolVersion, tls1_2, HandshakeType, client_hello, server_hello, certificate,
  server_key_exchange, certificate_request, server_hello_done, certificate_verify,
  client_key_exchange, finished, handshake_type_code, handshake_type_from_u8,
}
use crypto_kiddie.Tls.Wire.{TlsError, read_record_header, TlsRecord}
use crypto_kiddie.Tls.Transport.{TlsTransport, send_record, read_record, recv_handshake_message}
use crypto_kiddie.Client.{
  ClientHandshake, HandshakeError, start, record_server_hello, record_incoming, client_certificate,
  client_key_exchange_step, certificate_verify_digest, record_certificate_verify, client_finished,
  verify_server_finished, frame,
}
use crypto_kiddie.KeyTransport.{derive_shared_ukm}
use crypto_kiddie.Record
use crypto_kiddie.Record.{RecordCrypto, protect, unprotect, Unprotected}
use crypto_kiddie.Login.Messages.{
  LoginError, transport, handshake_failed, protocol, vko_failed, sign_failed, Fault,
  server_hello_too_short, unexpected_message, no_certificate, no_server_hello_message,
  record_crypto_unavailable, server_alert, unexpected_record, decrypt_failed, malformed_finished,
  LoginParams, LoginSession, send_handshake, sni_extension, first_certificate, signed_body,
}
use crypto_kiddie.Login.Certificates.{extract_subject_public_point, extract_spki_algorithm}

-- `recv_record`
unfoldable pub recv_record : TlsTransport → Result LoginError (TlsRecord × TlsTransport)
unfolding read_record
recv_record t =
    and_then (map_err transport (read_record t.incoming))
      (λ got. ok (got.0, record t { incoming = got.1 }))

-- The variables of the loop over the server's flight.
pub record FlightState : Type 0 where
  pub hs : ClientHandshake
  pub leaf : Option (List ℕ)
  pub random : Option (List ℕ)

-- The match of the loop, and whether it is left.
unfoldable pub note_typed :
    FlightState → Option HandshakeType → ℕ → List ℕ → Result LoginError (FlightState × Bool)
unfolding first_certificate record_server_hello record_incoming
note_typed f (some server_hello) msg_type body =
    if ltb (length body) 34
    then err (protocol server_hello_too_short)
    else ok (
      record f {
        hs = record_server_hello f.hs (take 32 (drop 2 body)) body;
        random = some (take 32 (drop 2 body));
      },
      false,
    )
note_typed f (some certificate) msg_type body =
    and_then (first_certificate body) (λ leaf.
      ok (record f { hs = record_incoming f.hs certificate body; leaf = some leaf }, false))
note_typed f (some server_key_exchange) msg_type body =
    ok (record f { hs = record_incoming f.hs server_key_exchange body }, false)
note_typed f (some certificate_request) msg_type body =
    ok (record f { hs = record_incoming f.hs certificate_request body }, false)
note_typed f (some server_hello_done) msg_type body =
    ok (record f { hs = record_incoming f.hs server_hello_done body }, true)
note_typed f _ msg_type body = err (protocol (unexpected_message msg_type))

unfoldable pub note_server_message :
    FlightState → ℕ → List ℕ → Result LoginError (FlightState × Bool)
unfolding handshake_type_from_u8 note_typed
note_server_message f msg_type body = note_typed f (handshake_type_from_u8 msg_type) msg_type body

-- A message takes at least four bytes off the buffer and the stream, so that the rounds that
-- `read_server_flight` gives are enough.
unfoldable pub flight_loop :
    ℕ → FlightState → TlsTransport → Result LoginError (FlightState × TlsTransport)
unfolding recv_handshake_message note_server_message
flight_loop zero f t = err (transport read_record_header)
flight_loop (suc rounds) f t = and_then (map_err transport (recv_handshake_message t)) (λ got.
    and_then (note_server_message f got.0.0 got.0.1) (λ noted. elim noted.1 [
      | true ↦ ok (noted.0, got.1)
      | false ↦ flight_loop rounds noted.0 got.1
    ]))

unfoldable pub read_server_flight :
    ClientHandshake → TlsTransport → Result LoginError (FlightState × TlsTransport)
unfolding flight_loop
read_server_flight hs t =
    flight_loop (suc (length t.incoming + length t.handshake_buf))
      (record { hs = hs; leaf = none; random = none }) t

pub record KeyTransport : Type 0 where
  pub kek : List ℕ
  pub ephemeral_spki_content : List ℕ

-- Where the connection stands behind the client's second flight.
pub record Flown : Type 0 where
  pub hs : ClientHandshake
  pub stream : TlsTransport

-- The server's ChangeCipherSpec.
unfoldable pub read_change_cipher_spec : TlsTransport → Result LoginError TlsTransport
unfolding recv_record
read_change_cipher_spec t = and_then (recv_record t) (λ ccs. elim ccs.0.content_type [
  | change_cipher_spec ↦ ok ccs.1
  | alert ↦
      if leb 2 (length ccs.0.payload)
      then err (protocol (server_alert (get_or ccs.0.payload 0 0) (get_or ccs.0.payload 1 0)))
      else err (protocol (unexpected_record alert))
  | handshake ↦ err (protocol (unexpected_record handshake))
  | application_data ↦ err (protocol (unexpected_record application_data))
])

-- `record.content_type != wanted`
unfoldable pub expect : ContentType → ContentType → Result LoginError Unit
expect wanted got =
    if content_type_code got == content_type_code wanted
    then ok tt
    else err (protocol (unexpected_record got))

-- What the driver and the session make of a result of `unprotect`: an error ends the connection.
unfoldable pub settled : RecordCrypto × Unprotected → Result LoginError (RecordCrypto × List ℕ)
settled (rc, Record.ok plain) = ok (rc, plain)
settled (rc, Record.err e) = err (protocol decrypt_failed)

unfoldable pub opened :
    RecordCrypto → ContentType → List ℕ → Result LoginError (RecordCrypto × List ℕ)
unfolding unprotect settled
opened rc content_type payload = settled (unprotect rc content_type tls1_2 payload)

-- The twelve bytes behind the header of the server's Finished.
unfoldable pub server_verify_data : List ℕ → Result LoginError (List ℕ)
server_verify_data plain =
    if ltb (length plain) (4 + 12) || not (get_or plain 0 0 == handshake_type_code finished)
    then err (protocol malformed_finished)
    else ok (take 12 (drop 4 plain))

module _ (streebog256 : List ℕ → List ℕ) where
  -- The client's second flight, up to its Finished.
  unfoldable pub client_flight :
      LoginParams
      → (List ℕ → Option (List ℕ))
      → KeyTransport
      → ClientHandshake
      → TlsTransport
      → Result LoginError Flown
  unfolding client_certificate client_key_exchange_step certificate_verify_digest
      record_certificate_verify client_finished send_handshake send_record signed_body protect frame
  client_flight params sign key hs t =
      let (hs1, cert_body) = client_certificate hs params.client_cert_chain in
      let t1 = send_handshake t certificate cert_body in
      and_then
        (map_err handshake_failed (
          client_key_exchange_step streebog256 hs1 key.kek params.premaster
            (some key.ephemeral_spki_content)))
        (λ exchanged.
          let t2 = send_handshake t1 client_key_exchange exchanged.1 in
          and_then (ok_or sign_failed (sign (certificate_verify_digest streebog256 exchanged.0)))
            (λ signature.
              let cv = signed_body signature in
              let t3 = send_handshake t2 certificate_verify cv in
              let hs3 = (record_certificate_verify exchanged.0 cv).0 in
              let t4 = send_record t3 change_cipher_spec (0x01 ∷ []) in
              and_then (map_err handshake_failed (client_finished streebog256 hs3)) (λ finish.
                and_then (ok_or (protocol record_crypto_unavailable) finish.0.record_crypto) (λ rc.
                  let (rc', protected) = protect rc handshake tls1_2 (frame finished finish.1) in
                  ok (record {
                    hs = record finish.0 { record_crypto = some rc' };
                    stream = send_record t4 handshake protected;
                  })))))

  -- The last test, with the connection's keys behind the server's Finished.
  unfoldable pub finish_with :
      List ℕ → ClientHandshake → RecordCrypto → List ℕ → Result LoginError LoginSession
  unfolding verify_server_finished
  finish_with leaf hs rc server_vd =
      let hs' = record hs { record_crypto = some rc } in
      and_then (map_err handshake_failed (verify_server_finished streebog256 hs' server_vd))
        (λ _. ok (record { handshake = hs'; server_leaf_cert = leaf }))

  unfoldable pub check_plain :
      List ℕ → ClientHandshake → RecordCrypto × List ℕ → Result LoginError LoginSession
  unfolding server_verify_data finish_with
  check_plain leaf hs plain = and_then (server_verify_data plain.1) (finish_with leaf hs plain.0)

  unfoldable pub check_payload :
      List ℕ → ClientHandshake → List ℕ → RecordCrypto → Result LoginError LoginSession
  unfolding opened check_plain
  check_payload leaf hs payload rc = and_then (opened rc handshake payload) (check_plain leaf hs)

  -- The server's Finished, out of the payload of its record.
  unfoldable pub check_server_finished :
      List ℕ → ClientHandshake → List ℕ → Result LoginError LoginSession
  unfolding check_payload
  check_server_finished leaf hs payload =
      and_then (ok_or (protocol record_crypto_unavailable) hs.record_crypto)
        (check_payload leaf hs payload)

  unfoldable pub read_server_finished :
      List ℕ → ClientHandshake → TlsTransport → Result LoginError (LoginSession × TlsTransport)
  unfolding read_change_cipher_spec recv_record expect check_server_finished
  read_server_finished leaf hs t = and_then (read_change_cipher_spec t) (λ t1.
      and_then (recv_record t1) (λ fin. and_then (expect handshake fin.0.content_type) (λ _.
        and_then (check_server_finished leaf hs fin.0.payload) (λ session. ok (session, fin.1)))))

  -- What `run_login` does with the server's flight.
  unfoldable pub login_behind_flight :
      LoginParams
      → (List ℕ → List ℕ → List ℕ → Option KeyTransport)
      → (List ℕ → Option (List ℕ))
      → FlightState
      → TlsTransport
      → Result LoginError (LoginSession × TlsTransport)
  unfolding derive_shared_ukm extract_subject_public_point extract_spki_algorithm client_flight
      read_server_finished
  login_behind_flight params agree sign f t =
      and_then (ok_or (protocol no_certificate) f.leaf) (λ leaf.
        and_then (ok_or (protocol no_server_hello_message) f.random) (λ random.
          let ukm = derive_shared_ukm streebog256 params.client_random random in
          and_then (extract_subject_public_point leaf) (λ point.
            and_then (extract_spki_algorithm leaf) (λ algorithm.
              and_then (ok_or vko_failed (agree point algorithm ukm)) (λ key.
                and_then (client_flight params sign key f.hs t)
                  (λ flown. read_server_finished leaf flown.hs flown.stream))))))

  -- The session id is empty, so that `start` does not fail.
  unfoldable pub run_login :
      TlsTransport
      → LoginParams
      → (List ℕ → List ℕ → List ℕ → Option KeyTransport)
      → (List ℕ → Option (List ℕ))
      → Option (Result LoginError (LoginSession × TlsTransport))
  unfolding start sni_extension send_handshake read_server_flight login_behind_flight
  run_login t params agree sign =
      Option.map {B = Result LoginError (LoginSession × TlsTransport)}
        (λ begun.
          and_then (read_server_flight begun.0 (send_handshake t client_hello begun.1))
            (λ got. login_behind_flight params agree sign got.0 got.1))
        (start tls1_2 params.client_random [] params.cipher_suites
          (sni_extension params.server_name))
