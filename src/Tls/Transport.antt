-- ===== src/Tls/Transport.antt =====
-- src/tls.rs: the messages of the server's flight, and the transport that frames and reassembles
-- them. The stream is what the peer has still to deliver, and an end of it is a failed read.
use crypto_kiddie.Prelude.{
  ℕ, zero, suc, ◌+◌, List, [], ◌∷◌, ◌++◌, if◌then◌else◌, ltb, Option, none, some, length, take,
  drop, get_or, be_value, Bool, true, false, Result, ok, err, and_then, ok_or,
}
use crypto_kiddie.Tls.Types.{
  ContentType, alert, handshake, application_data, change_cipher_spec, tls1_2, content_type_from_u8,
  HandshakeType, server_hello, certificate, server_key_exchange, certificate_request,
  server_hello_done, handshake_type_from_u8,
}
use crypto_kiddie.Tls.Wire.{
  TlsError, read_record_header, read_record_body, no_server_hello, unknown_content_type,
  alert_received, unexpected_record, read_number, read_vec, TlsRecord, encode_record, ServerHello,
  parse_server_hello, parse_certificates, parse_alert, ClientHello, encode_client_hello,
}

pub data HandshakeMessage : Type 0 where
  server_hello_message : ServerHello → HandshakeMessage
  certificate_message : List (List ℕ) → HandshakeMessage
  server_key_exchange_message : List ℕ → HandshakeMessage
  certificate_request_message : List ℕ → HandshakeMessage
  server_hello_done_message : HandshakeMessage
  other : HandshakeType → List ℕ → HandshakeMessage
  unknown : ℕ → List ℕ → HandshakeMessage

-- The match of `decode_handshake_messages` on a type that the client knows.
unfoldable pub known_message : HandshakeType → List ℕ → Result TlsError HandshakeMessage
unfolding parse_server_hello parse_certificates
known_message server_hello body =
    and_then (parse_server_hello body) (λ hello. ok (server_hello_message hello))
known_message certificate body =
    and_then (parse_certificates body) (λ certs. ok (certificate_message certs))
known_message server_key_exchange body = ok (server_key_exchange_message body)
known_message certificate_request body = ok (certificate_request_message body)
known_message server_hello_done body = ok server_hello_done_message
known_message t body = ok (other t body)

unfoldable pub decode_message : ℕ → List ℕ → Result TlsError HandshakeMessage
unfolding known_message handshake_type_from_u8
decode_message raw_type body = elim (handshake_type_from_u8 raw_type) [
  | none ↦ ok (unknown raw_type body)
  | some t ↦ known_message t body
]

-- The loop of `decode_handshake_messages`; a round reads at least four bytes.
unfoldable pub decode_loop : ℕ → List ℕ → Result TlsError (List HandshakeMessage)
unfolding read_number read_vec decode_message
decode_loop zero r = ok []
decode_loop (suc rounds) [] = ok []
decode_loop (suc rounds) (x ∷ xs) = and_then (read_number 1 (x ∷ xs)) (λ raw_type.
    and_then (read_vec 3 raw_type.1) (λ body.
      and_then (decode_message raw_type.0 body.0)
        (λ message. and_then (decode_loop rounds body.1) (λ rest. ok (message ∷ rest)))))

unfoldable pub decode_handshake_messages : List ℕ → Result TlsError (List HandshakeMessage)
unfolding decode_loop
decode_handshake_messages buf = decode_loop (length buf) buf

pub record TlsTransport : Type 0 where
  pub incoming : List ℕ
  pub outgoing : List ℕ
  pub handshake_buf : List ℕ

-- A write to the stream succeeds.
unfoldable pub send_record : TlsTransport → ContentType → List ℕ → TlsTransport
unfolding encode_record
send_record t content_type payload = record t {
  outgoing = t.outgoing ++ encode_record content_type tls1_2 payload;
}

-- `read_record` on the stream's bytes: the record and what the peer has still to deliver.
unfoldable pub read_record : List ℕ → Result TlsError (TlsRecord × List ℕ)
read_record incoming =
    let header = take 5 incoming in
    let behind = drop 5 incoming in
    let len = be_value (drop 3 header) in
    if ltb (length incoming) 5
    then err read_record_header
    else and_then
        (ok_or (unknown_content_type (get_or header 0 0))
          (content_type_from_u8 (get_or header 0 0)))
        (λ content_type.
          if ltb (length behind) len
          then err read_record_body
          else ok (
            record {
              content_type = content_type;
              version = record { major = get_or header 1 0; minor = get_or header 2 0 };
              payload = take len behind;
            },
            drop len behind,
          ))

-- The first whole message of the buffer with its type, and what stands behind it.
unfoldable pub split_message : List ℕ → Option ((ℕ × List ℕ) × List ℕ)
split_message buf =
    let total = 4 + be_value (take 3 (drop 1 buf)) in
    if ltb (length buf) 4
    then none
    else (if ltb (length buf) total
        then none
        else some ((get_or buf 0 0, drop 4 (take total buf)), drop total buf))

-- What a record that is no handshake record makes of the call.
unfoldable pub alert_or_unexpected : {A : Type 0} → TlsRecord → Result TlsError A
unfolding parse_alert
alert_or_unexpected r = elim r.content_type [
  | alert ↦ and_then (parse_alert r.payload) (λ a. err (alert_received a.level a.description))
  | handshake ↦ err (unexpected_record handshake)
  | change_cipher_spec ↦ err (unexpected_record change_cipher_spec)
  | application_data ↦ err (unexpected_record application_data)
]

-- The loop of `recv_handshake_message`. A round that does not return reads five bytes at least.
unfoldable pub recv_loop : ℕ → List ℕ → List ℕ → Result TlsError ((ℕ × List ℕ) × (List ℕ × List ℕ))
unfolding split_message read_record alert_or_unexpected
recv_loop zero buf incoming = err read_record_header
recv_loop (suc rounds) buf incoming = elim (split_message buf) [
  | some found ↦ ok (found.0, (found.1, incoming))
  | none ↦ and_then (read_record incoming) (λ got. elim got.0.content_type [
    | handshake ↦ recv_loop rounds (buf ++ got.0.payload) got.1
    | _ ↦ alert_or_unexpected got.0
  ])
]

unfoldable pub recv_handshake_message : TlsTransport → Result TlsError ((ℕ × List ℕ) × TlsTransport)
unfolding recv_loop
recv_handshake_message t =
    and_then (recv_loop (suc (length t.incoming)) t.handshake_buf t.incoming)
      (λ got. ok (got.0, record t { handshake_buf = got.1.0; incoming = got.1.1 }))

-- `drain_handshake_messages`: the whole messages of the buffer and what is left of it. A round
-- takes at least four bytes off.
unfoldable pub drain_loop : ℕ → List ℕ → Result TlsError (List HandshakeMessage × List ℕ)
unfolding split_message decode_handshake_messages
drain_loop zero buf = ok ([], buf)
drain_loop (suc rounds) buf =
    let total = 4 + be_value (take 3 (drop 1 buf)) in
    elim (split_message buf) [
      | none ↦ ok ([], buf)
      | some found ↦ and_then (decode_handshake_messages (take total buf)) (λ messages.
          and_then (drain_loop rounds found.1) (λ rest. ok (messages ++ rest.0, rest.1)))
    ]

unfoldable pub drain_handshake_messages : List ℕ → Result TlsError (List HandshakeMessage × List ℕ)
unfolding drain_loop
drain_handshake_messages buf = drain_loop (length buf) buf

-- The variables of `opening_handshake`.
pub record Flight : Type 0 where
  pub hello : Option ServerHello
  pub certificates : List (List ℕ)
  pub key_exchange : Option (List ℕ)
  pub request : Option (List ℕ)
  pub done : Bool

abbrev pub no_flight : Flight
no_flight = record {
  hello = none;
  certificates = [];
  key_exchange = none;
  request = none;
  done = false;
}

-- The match of `opening_handshake` on a message.
unfoldable pub note_message : Flight → HandshakeMessage → Flight
note_message f (server_hello_message hello) = record f { hello = some hello }
note_message f (certificate_message certs) = record f { certificates = certs }
note_message f (server_key_exchange_message body) = record f { key_exchange = some body }
note_message f (certificate_request_message body) = record f { request = some body }
note_message f server_hello_done_message = record f { done = true }
note_message f (other t body) = f
note_message f (unknown t body) = f

unfoldable pub note_messages : Flight → List HandshakeMessage → Flight
unfolding note_message
note_messages f [] = f
note_messages f (m ∷ ms) = note_messages (note_message f m) ms

-- The loop of `opening_handshake`: the flight, the buffer and the stream behind it.
unfoldable pub opening_loop :
    ℕ → Flight → List ℕ → List ℕ → Result TlsError (Flight × (List ℕ × List ℕ))
unfolding read_record drain_handshake_messages note_messages alert_or_unexpected
opening_loop zero f buf incoming = err read_record_header
opening_loop (suc rounds) f buf incoming =
    if f.done
    then ok (f, (buf, incoming))
    else and_then (read_record incoming) (λ got. elim got.0.content_type [
      | handshake ↦
          and_then (drain_handshake_messages (buf ++ got.0.payload))
            (λ drained. opening_loop rounds (note_messages f drained.0) drained.1 got.1)
      | _ ↦ alert_or_unexpected got.0
    ])

pub record ServerFlight : Type 0 where
  pub hello : ServerHello
  pub certificates : List (List ℕ)
  pub key_exchange : Option (List ℕ)
  pub request : Option (List ℕ)
  pub hello_done : Bool

-- A round of the loop reads five bytes at least, so that the rounds are enough.
unfoldable pub opening_handshake :
    TlsTransport → ClientHello → Result TlsError (ServerFlight × TlsTransport)
unfolding send_record encode_client_hello opening_loop
opening_handshake t hello =
    let sent = send_record t handshake (encode_client_hello hello) in
    and_then (opening_loop (suc (length t.incoming)) no_flight sent.handshake_buf sent.incoming)
      (λ got. and_then (ok_or no_server_hello got.0.hello) (λ server. ok (
        record {
          hello = server;
          certificates = got.0.certificates;
          key_exchange = got.0.key_exchange;
          request = got.0.request;
          hello_done = got.0.done;
        },
        record sent { handshake_buf = got.1.0; incoming = got.1.1 },
      )))
