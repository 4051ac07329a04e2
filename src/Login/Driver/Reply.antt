-- ===== src/Login/Driver/Reply.antt =====
-- The server's reply to the second flight: what `read_server_finished` makes of the right one.
use crypto_kiddie.Prelude.{
  ℕ, ◌^◌, ◌<◌, ◌≡◌, refl, arith, List, [], ◌∷◌, ◌++◌, le→ltb, some, length, take-all, ok,
}
use crypto_kiddie.Tls.Types.{
  ContentType, ProtocolVersion, tls1_2, handshake, change_cipher_spec, finished,
}
use crypto_kiddie.Tls.Wire.{encode_record}
use crypto_kiddie.Tls.Transport.{TlsTransport}
use crypto_kiddie.Tls.Framing.{read_record-encode_record}
use crypto_kiddie.Handshake.{finished_body, frame_handshake}
use crypto_kiddie.Prf.{server_finished_label}
use crypto_kiddie.Record.{RecordCrypto, protect}
use crypto_kiddie.Record.RoundTrip.{unprotect-protect, length-protect}
use crypto_kiddie.Client.{ClientHandshake, frame}
use crypto_kiddie.Client.Verdict.{verify_server_finished_iff, length-finished_body}
use crypto_kiddie.Login.Messages.{LoginSession}
use crypto_kiddie.Login.Driver.{
  settled, opened, server_verify_data, finish_with, check_plain, check_payload,
  check_server_finished, read_server_finished, read_change_cipher_spec, recv_record, expect,
}

-- A record at the head of the stream is taken off it.
pub recv_record-encode_record :
    (c : ContentType) (v : ProtocolVersion) (payload rest : List ℕ) (t : TlsTransport)
    → t.incoming ≡ encode_record c v payload ++ rest
    → length payload < 2 ^ 16
    → recv_record t
      ≡ ok (
        record { content_type = c; version = v; payload = payload },
        record t { incoming = rest },
      )
unfolding recv_record
recv_record-encode_record c v payload rest t e h =
    rw (e, read_record-encode_record c v payload rest h) refl

read_change_cipher_spec_lem :
    (v : ProtocolVersion) (payload rest : List ℕ) (t : TlsTransport)
    → t.incoming ≡ encode_record change_cipher_spec v payload ++ rest
    → length payload < 2 ^ 16
    → read_change_cipher_spec t ≡ ok (record t { incoming = rest })
unfolding read_change_cipher_spec
read_change_cipher_spec_lem v payload rest t e h =
    rw (recv_record-encode_record change_cipher_spec v payload rest t e h) refl

opened-protect :
    (rc server : RecordCrypto) (plain : List ℕ)
    → rc.read ≡ server.write
    → opened rc handshake (protect server handshake tls1_2 plain).1
      ≡ ok (record rc { read = (protect server handshake tls1_2 plain).0.write }, plain)
unfolding opened settled
opened-protect rc server plain e = rw (unprotect-protect handshake tls1_2 server rc plain e) refl

server_verify_data-frame :
    (vd : List ℕ) → length vd ≡ 12 → server_verify_data (frame finished vd) ≡ ok vd
unfolding server_verify_data frame frame_handshake
server_verify_data-frame vd h =
    rw (le→ltb (length (frame finished vd)) 16 (omega arith), take-all 12 vd (omega arith)) refl

module _ (streebog256 : List ℕ → List ℕ) (hs : ClientHandshake) (server : RecordCrypto)
    (ms : List ℕ) where
  -- The twelve bytes that the server owes the client.
  abbrev pub owed : List ℕ
  owed = finished_body streebog256 ms server_finished_label hs.transcript

  -- The server's keys behind its Finished, and the payload of its record.
  abbrev pub sent_finished : RecordCrypto × List ℕ
  sent_finished = protect server handshake tls1_2 (frame finished owed)

  -- The session that the right reply opens.
  abbrev pub opened_session : List ℕ → RecordCrypto → LoginSession
  opened_session leaf keys = record {
    handshake = record hs { record_crypto = some (record keys { read = sent_finished.0.write }) };
    server_leaf_cert = leaf;
  }

module _ (streebog256 : List ℕ → List ℕ) (size : (m : List ℕ) → length (streebog256 m) ≡ 32) where
  module _ (leaf : List ℕ) (hs : ClientHandshake) (keys server : RecordCrypto) (ms : List ℕ) where
    abbrev vd : List ℕ
    vd = owed streebog256 hs server ms

    abbrev sent : RecordCrypto × List ℕ
    sent = sent_finished streebog256 hs server ms

    abbrev session : LoginSession
    session = opened_session streebog256 hs server ms leaf keys

    finish_with_lem :
        (rc : RecordCrypto)
        → hs.master_secret ≡ some ms
        → finish_with streebog256 leaf hs rc vd
          ≡ ok (record {
            handshake = record hs { record_crypto = some rc };
            server_leaf_cert = leaf;
          })
    unfolding finish_with
    finish_with_lem rc e =
        let hs' = record hs { record_crypto = some rc } in
        rw
          ((verify_server_finished_iff streebog256 size hs' ms vd e
              (length-finished_body streebog256 size ms _ hs.transcript)).1
            refl)
          refl

    check_payload_lem :
        hs.master_secret ≡ some ms
        → keys.read ≡ server.write
        → check_payload streebog256 leaf hs sent.1 keys ≡ ok session
    unfolding check_payload check_plain
    check_payload_lem e same =
        let twelve = length-finished_body streebog256 size ms server_finished_label hs.transcript in
        rw
          (
            opened-protect keys server (frame finished vd) same,
            server_verify_data-frame vd twelve,
            finish_with_lem (record keys { read = sent.0.write }) e,
          )
          refl

    length-sent_finished : length sent.1 ≡ 20
    unfolding frame frame_handshake
    length-sent_finished =
        let twelve = length-finished_body streebog256 size ms server_finished_label hs.transcript in
        omega (arith, length-protect handshake tls1_2 server (frame finished vd))

    -- The right reply of the server opens the session: where its writing keys are the client's
    -- reading keys, its ChangeCipherSpec and its protected Finished over the transcript are taken
    -- off the stream and accepted, and what follows them is left for the session, whose reading
    -- direction is where the server's writing direction stands.
    pub read_server_finished-opened_session :
        (v : ProtocolVersion) (rest : List ℕ) (t : TlsTransport)
        → hs.record_crypto ≡ some keys
        → hs.master_secret ≡ some ms
        → keys.read ≡ server.write
        → t.incoming
          ≡ encode_record change_cipher_spec v (0x01 ∷ [])
            ++ (encode_record handshake v sent.1 ++ rest)
        → read_server_finished streebog256 leaf hs t ≡ ok (session, record t { incoming = rest })
    unfolding read_server_finished check_server_finished expect
    read_server_finished-opened_session v rest t k e same stream =
        let t1 : TlsTransport = record t { incoming = encode_record handshake v sent.1 ++ rest } in
        rw
          (
            read_change_cipher_spec_lem v (0x01 ∷ []) t1.incoming t stream (omega arith),
            recv_record-encode_record handshake v sent.1 rest t1 refl
                (omega (arith, length-sent_finished)),
            k,
            check_payload_lem e same,
          )
          refl
