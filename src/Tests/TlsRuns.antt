-- ===== src/Tests/TlsRuns.antt =====
-- The transport and the record format at concrete inputs.
use crypto_kiddie.Prelude.{ℕ, ◌≡◌, refl, arith, List, [], ◌∷◌, ◌++◌, flatten, ok}
use crypto_kiddie.Tls.Types.{
  tls1_2, tls1_0, HandshakeType, application_data, certificate, server_hello_done,
}
use crypto_kiddie.Tls.Wire.{encode_record, parse_certificates}
use crypto_kiddie.Tls.Transport.{read_record, TlsTransport}
use crypto_kiddie.Tls.Framing.{read_record-encode_record, parse_certificates-certificate_body}
use crypto_kiddie.Tls.Reassembly.{records}
use crypto_kiddie.Tls.Flow.{receive_all, receive_all-framed}
use crypto_kiddie.Handshake.{frame_handshake}
use crypto_kiddie.Client.{certificate_body, certificate_entry}

read_record-encode_record_example :
    read_record (encode_record application_data tls1_0 (7 ∷ 8 ∷ []) ++ (9 ∷ []))
    ≡ ok
        (record { content_type = application_data; version = tls1_0; payload = 7 ∷ 8 ∷ [] }, 9 ∷ [])
read_record-encode_record_example =
    read_record-encode_record application_data tls1_0 (7 ∷ 8 ∷ []) (9 ∷ []) (omega arith)

abbrev chain : List (List ℕ)
chain = (1 ∷ 2 ∷ []) ∷ (3 ∷ []) ∷ []

parse_certificates-certificate_body_example : parse_certificates (certificate_body chain) ≡ ok chain
unfolding certificate_entry flatten
parse_certificates-certificate_body_example =
    parse_certificates-certificate_body chain (omega arith, (omega arith, tt)) (omega arith)

abbrev messages : List (HandshakeType × List ℕ)
messages = (certificate, 1 ∷ 2 ∷ []) ∷ (server_hello_done, []) ∷ []

-- One byte is buffered, and two records carry the rest: the first ends inside the first message.
abbrev payloads : List (List ℕ)
payloads = (0 ∷ 0 ∷ 2 ∷ 1 ∷ []) ∷ (2 ∷ 14 ∷ 0 ∷ 0 ∷ 0 ∷ []) ∷ []

abbrev transport : TlsTransport
transport = record {
  incoming = records tls1_2 payloads ++ (5 ∷ []);
  outgoing = [];
  handshake_buf = 11 ∷ [];
}

receive_all-framed_example : receive_all 2 transport ≡ ok ((11, 1 ∷ 2 ∷ []) ∷ (14, []) ∷ [])
unfolding flatten frame_handshake
receive_all-framed_example =
    receive_all-framed tls1_2 messages payloads transport (5 ∷ []) []
      (omega arith, (omega arith, tt)) (omega arith, (omega arith, tt)) refl refl
