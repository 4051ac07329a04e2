-- ===== src/Login/Session.antt =====
-- src/gost_login.rs: `LoginSession`, application data in both directions. A write to the stream
-- succeeds.
pub mod Cutting
pub mod Delivery
pub mod Exchange
use crypto_kiddie.Prelude.{
  ℕ, zero, suc, ◌+◌, List, [], ◌∷◌, ◌++◌, Bool, true, false, leb, ◌==◌, Option, none, some, length,
  take, drop, Result, ok, err, and_then, ok_or, map_err,
}
use crypto_kiddie.Tls.Types.{
  ContentType, change_cipher_spec, alert, handshake, application_data, ProtocolVersion,
}
use crypto_kiddie.Tls.Transport.{TlsTransport, send_record}
use crypto_kiddie.Record.{RecordCrypto, protect, unprotect}
use crypto_kiddie.Login.Messages.{
  LoginError, LoginSession, protocol, record_crypto_unavailable, unexpected_record,
}
use crypto_kiddie.Login.Driver.{recv_record, expect, settled}

abbrev pub max_record_plaintext : ℕ
max_record_plaintext = 16384

-- `chunks(MAX_RECORD_PLAINTEXT)`, and one empty chunk for an empty text. A chunk that is not the
-- last is full, so that the rounds that `record_chunks` gives are enough.
unfoldable pub chunk_loop : ℕ → List ℕ → List (List ℕ)
chunk_loop zero plaintext = []
chunk_loop (suc rounds) plaintext =
    take max_record_plaintext plaintext ∷ elim (leb (length plaintext) max_record_plaintext) [
      | true ↦ []
      | false ↦ chunk_loop rounds (drop max_record_plaintext plaintext)
    ]

unfoldable pub record_chunks : List ℕ → List (List ℕ)
unfolding chunk_loop
record_chunks plaintext = chunk_loop (suc (length plaintext)) plaintext

-- The session with the connection's keys behind a record.
abbrev pub with_crypto : LoginSession → RecordCrypto → LoginSession
with_crypto s rc = record s { handshake = record s.handshake { record_crypto = some rc } }

-- The body of the loop of `send_application_data`.
unfoldable pub send_chunk :
    LoginSession → TlsTransport → List ℕ → Result LoginError (LoginSession × TlsTransport)
unfolding protect send_record
send_chunk s t chunk =
    and_then (ok_or (protocol record_crypto_unavailable) s.handshake.record_crypto) (λ rc.
      let (rc', ct) = protect rc application_data s.handshake.version chunk in
      ok (with_crypto s rc', send_record t application_data ct))

unfoldable pub send_chunks :
    LoginSession → TlsTransport → List (List ℕ) → Result LoginError (LoginSession × TlsTransport)
unfolding send_chunk
send_chunks s t [] = ok (s, t)
send_chunks s t (chunk ∷ chunks) =
    and_then (send_chunk s t chunk) (λ sent. send_chunks sent.0 sent.1 chunks)

unfoldable pub send_application_data :
    LoginSession → TlsTransport → List ℕ → Result LoginError (LoginSession × TlsTransport)
unfolding send_chunks record_chunks
send_application_data s t plaintext = send_chunks s t (record_chunks plaintext)

-- A record's payload, opened with the connection's keys.
unfoldable pub open_payload : LoginSession → List ℕ → Result LoginError (LoginSession × List ℕ)
unfolding unprotect settled
open_payload s payload =
    and_then (ok_or (protocol record_crypto_unavailable) s.handshake.record_crypto) (λ rc.
      and_then (settled (unprotect rc application_data s.handshake.version payload))
        (λ got. ok (with_crypto s got.0, got.1)))

unfoldable pub recv_application_data :
    LoginSession → TlsTransport → Result LoginError ((LoginSession × TlsTransport) × List ℕ)
unfolding recv_record expect open_payload
recv_application_data s t = and_then (recv_record t) (λ got.
    and_then (expect application_data got.0.content_type)
      (λ _. and_then (open_payload s got.0.payload) (λ opened. ok ((opened.0, got.1), opened.1))))

-- The loop of `recv_all_application_data`: a record that cannot be read, an alert and any other
-- record end it. A round that goes on takes five bytes at least.
unfoldable pub drain_application_data :
    ℕ → LoginSession → TlsTransport → List ℕ → Result LoginError (LoginSession × List ℕ)
unfolding recv_record open_payload
drain_application_data zero s t out = ok (s, out)
drain_application_data (suc rounds) s t out = elim (recv_record t) [
  | err e ↦ ok (s, out)
  | ok got ↦ elim got.0.content_type [
    | application_data ↦
        and_then (open_payload s got.0.payload)
          (λ opened. drain_application_data rounds opened.0 got.1 (out ++ opened.1))
    | _ ↦ ok (s, out)
  ]
]

unfoldable pub recv_all_application_data :
    LoginSession → TlsTransport → Result LoginError (LoginSession × List ℕ)
unfolding drain_application_data
recv_all_application_data s t = drain_application_data (suc (length t.incoming)) s t []
