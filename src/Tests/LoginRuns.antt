-- ===== src/Tests/LoginRuns.antt =====
-- The login at a concrete server. A function of 32 bytes stands for the hash.
use crypto_kiddie.Prelude.{
  ℕ, ◌^◌, ◌<◌, ◌≡◌, refl, arith, List, [], ◌∷◌, ◌++◌, All, flatten, Option, none, some, length,
  take, drop, replicate, le_bytes, le_value, length-le_bytes, ok,
}
use crypto_kiddie.Tls.Types.{HandshakeType, tls1_2, server_hello, certificate, server_hello_done}
use crypto_kiddie.Tls.Transport.{TlsTransport}
use crypto_kiddie.Tls.Reassembly.{records, AreShort}
use crypto_kiddie.Tls.Flow.{framed}
use crypto_kiddie.Handshake.{frame_handshake}
use crypto_kiddie.Der.{der_tlv}
use crypto_kiddie.Client.{
  ClientHandshake, start, certificate_body, certificate_entry, record_server_hello, record_incoming,
}
use crypto_kiddie.Client.Agreement.{begun}
use crypto_kiddie.Login.Messages.{first_certificate, LoginParams, LoginSession}
use crypto_kiddie.Login.Certificates.{extract_subject_public_point, extract_spki_algorithm}
use crypto_kiddie.Login.Certificates.Found.{
  Field, tbs_of, certificate_of, extract_subject_public_point-certificate_of,
  extract_spki_algorithm-certificate_of,
}
use crypto_kiddie.Login.Driver.{FlightState, KeyTransport, run_login}
use crypto_kiddie.Login.Driver.Begun.{started}
use crypto_kiddie.Login.Driver.Flight.{FlightRun, done, then_message, hello_taken, chain_taken}
use crypto_kiddie.Login.Driver.Honest.{flown_stream}
use crypto_kiddie.Login.Driver.Taken.{AreFilled}
use crypto_kiddie.Login.Driver.Whole.{reply, session, between, run_login-session}
use crypto_kiddie.Login.Driver.Trusted.{Trusted, run_login-Trusted}
use crypto_kiddie.Record
use crypto_kiddie.Record.{RecordCrypto}
use crypto_kiddie.Login.Session.{
  with_crypto, record_chunks, send_application_data, recv_all_application_data,
}
use crypto_kiddie.Login.Session.Exchange.{keys_behind, wire, closing, Drained}
use crypto_kiddie.Login.Session.Delivery.{recv_all-send_application_data}

abbrev toy_hash : List ℕ → List ℕ
toy_hash m = le_bytes 32 (le_value m)

toy_hash-size : (m : List ℕ) → length (toy_hash m) ≡ 32
toy_hash-size m = length-le_bytes 32 (le_value m)

-- A certificate with a version, and a point of four bytes.
abbrev version : Field
version = (0xA0, 2 ∷ 1 ∷ 2 ∷ [])

abbrev fields : List Field
fields = (2, 7 ∷ []) ∷ (0x30, 9 ∷ []) ∷ (0x30, []) ∷ (0x30, []) ∷ (0x30, 8 ∷ []) ∷ []

abbrev point : List ℕ
point = 11 ∷ 12 ∷ 13 ∷ 14 ∷ []

abbrev leaf : List ℕ
leaf = certificate_of version fields (6 ∷ 1 ∷ 5 ∷ []) point (0xA3 ∷ 0 ∷ []) (3 ∷ 1 ∷ 0 ∷ [])

leaf_fits :
    length (
      der_tlv 0x30 (tbs_of version fields (6 ∷ 1 ∷ 5 ∷ []) point (0xA3 ∷ 0 ∷ []))
      ++ (3 ∷ 1 ∷ 0 ∷ []))
    < 256 ^ 4
unfolding der_tlv flatten
leaf_fits = omega arith

extract_subject_public_point-certificate_of_example : extract_subject_public_point leaf ≡ ok point
extract_subject_public_point-certificate_of_example =
    extract_subject_public_point-certificate_of version fields (6 ∷ 1 ∷ 5 ∷ []) point
      (0xA3 ∷ 0 ∷ []) (3 ∷ 1 ∷ 0 ∷ []) refl leaf_fits

algorithm_found : extract_spki_algorithm leaf ≡ ok (der_tlv 0x30 (6 ∷ 1 ∷ 5 ∷ []))
algorithm_found =
    extract_spki_algorithm-certificate_of version fields (6 ∷ 1 ∷ 5 ∷ []) point (0xA3 ∷ 0 ∷ [])
      (3 ∷ 1 ∷ 0 ∷ []) refl leaf_fits

-- The client, its token and the agreed key.
abbrev params : LoginParams
params = record {
  server_name = 97 ∷ 46 ∷ 98 ∷ [];
  client_random = replicate 32 5;
  premaster = replicate 32 6;
  client_cert_chain = (1 ∷ 2 ∷ []) ∷ [];
  cipher_suites = 0xFF85 ∷ [];
}

abbrev key : KeyTransport
key = record { kek = replicate 32 7; ephemeral_spki_content = 0x30 ∷ 0 ∷ [] }

abbrev agree : List ℕ → List ℕ → List ℕ → Option KeyTransport
agree public algorithm ukm = some key

abbrev signature : List ℕ → List ℕ
signature digest = replicate 64 9

abbrev sign : List ℕ → Option (List ℕ)
sign digest = some (signature digest)

abbrev hello_body : List ℕ
hello_body = elim (started params) [ none ↦ [] | some made ↦ made.1 ]

abbrev client : ClientHandshake
client = begun tls1_2 (replicate 32 5) hello_body

started_run : started params ≡ some (client, hello_body)
unfolding start
started_run = refl

-- The server's flight, in two records.
abbrev random : List ℕ
random = replicate 32 4

abbrev server_hello_body : List ℕ
server_hello_body = 3 ∷ 3 ∷ (random ++ (0 ∷ 0xFF ∷ 0x85 ∷ 0 ∷ []))

abbrev chain_body : List ℕ
chain_body = certificate_body (leaf ∷ [])

abbrev messages : List (HandshakeType × List ℕ)
messages =
    (server_hello, server_hello_body) ∷ (certificate, chain_body) ∷ (server_hello_done, []) ∷ []

abbrev payloads : List (List ℕ)
payloads = take 20 (framed messages) ∷ drop 20 (framed messages) ∷ []

abbrev at_first : FlightState
at_first = record { hs = client; leaf = none; random = none }

abbrev with_hello : FlightState
with_hello = record {
  hs = record_server_hello client random server_hello_body;
  leaf = none;
  random = some random;
}

abbrev with_chain : FlightState
with_chain = record {
  hs = record_incoming with_hello.hs certificate chain_body;
  leaf = some leaf;
  random = some random;
}

abbrev at_last : FlightState
at_last = record {
  hs = record_incoming with_chain.hs server_hello_done [];
  leaf = some leaf;
  random = some random;
}

leaf_found : first_certificate chain_body ≡ ok leaf
unfolding first_certificate certificate_body certificate_entry der_tlv flatten
leaf_found = refl

flight_run : FlightRun at_first messages at_last
flight_run =
    then_message at_first with_hello at_last (server_hello, server_hello_body) _
      (hello_taken at_first server_hello_body (omega arith))
      (then_message with_hello with_chain at_last (certificate, chain_body) _
        (chain_taken with_hello chain_body leaf leaf_found) (done with_chain []))

framed_run : [] ++ flatten payloads ≡ framed messages
unfolding flatten frame_handshake certificate_body certificate_entry der_tlv
framed_run = refl

messages_fit : All (λ (m : HandshakeType × List ℕ). length m.1 < 2 ^ 24) messages
unfolding certificate_body certificate_entry der_tlv flatten
messages_fit = (omega arith, (omega arith, (omega arith, tt)))

payloads_short : AreShort tls1_2 payloads
unfolding frame_handshake certificate_body certificate_entry der_tlv flatten
payloads_short = (omega arith, (omega arith, tt))

payloads_filled : AreFilled payloads
unfolding frame_handshake certificate_body certificate_entry der_tlv flatten
payloads_filled = (omega arith, (omega arith, tt))

abbrev replied : List ℕ
replied = reply toy_hash params signature key at_last.hs random tls1_2 ++ (1 ∷ 2 ∷ [])

abbrev server_stream : TlsTransport
server_stream = record {
  incoming = records tls1_2 payloads ++ replied;
  outgoing = [];
  handshake_buf = [];
}

abbrev last_stream : TlsTransport
last_stream =
    record (flown_stream toy_hash params signature key at_last.hs random
      (between server_stream hello_body replied)) { incoming = 1 ∷ 2 ∷ [] }

abbrev last_session : LoginSession
last_session = session toy_hash params signature key at_last.hs random leaf

run_login-session_example :
    run_login toy_hash server_stream params agree sign ≡ some (ok (last_session, last_stream))
run_login-session_example =
    run_login-session toy_hash toy_hash-size params agree sign signature (λ d. refl) tls1_2
      server_stream client hello_body at_last messages payloads leaf random point
      (der_tlv 0x30 (6 ∷ 1 ∷ 5 ∷ [])) (1 ∷ 2 ∷ []) key started_run flight_run messages_fit
      payloads_short payloads_filled framed_run refl refl
      extract_subject_public_point-certificate_of_example algorithm_found refl refl

accepted :
    run_login toy_hash server_stream params agree sign ≡ some (ok (last_session, last_stream))
accepted =
    run_login-session toy_hash toy_hash-size params agree sign signature (λ d. refl) tls1_2
      server_stream client hello_body at_last messages payloads leaf random point
      (der_tlv 0x30 (6 ∷ 1 ∷ 5 ∷ [])) (1 ∷ 2 ∷ []) key started_run flight_run messages_fit
      payloads_short payloads_filled framed_run refl refl
      extract_subject_public_point-certificate_of_example algorithm_found refl refl

run_login-Trusted_example : Trusted toy_hash params agree sign last_session
run_login-Trusted_example =
    run_login-Trusted toy_hash toy_hash-size params agree sign server_stream last_stream
      last_session accepted

-- Two ends of a connection behind the login, and a text of two bytes.
abbrev end_with : RecordCrypto → LoginSession
end_with rc = record {
  handshake = record client { record_crypto = some rc };
  server_leaf_cert = leaf;
}

abbrev near : RecordCrypto
near =
    Record.new (replicate 32 1) (replicate 32 2) (replicate 8 3) (replicate 32 4) (replicate 32 5)
      (replicate 8 6)

abbrev far : RecordCrypto
far =
    Record.new (replicate 32 4) (replicate 32 5) (replicate 8 6) (replicate 32 1) (replicate 32 2)
      (replicate 8 3)

abbrev text : List ℕ
text = 104 ∷ 105 ∷ []

abbrev quiet : TlsTransport
quiet = record { incoming = []; outgoing = []; handshake_buf = [] }

abbrev arrived : TlsTransport
arrived = record quiet {
  incoming = wire tls1_2 near (record_chunks text) ++ closing tls1_2 (some (1 ∷ 0 ∷ []));
}

abbrev Arrives : Type 0
Arrives =
    Drained tls1_2 text (keys_behind tls1_2 near (record_chunks text))
      (recv_all_application_data (end_with far) arrived)

recv_all-send_application_data_example :
    (send_application_data (end_with near) quiet text
      ≡ ok (
        with_crypto (end_with near) (keys_behind tls1_2 near (record_chunks text)),
        record quiet { outgoing = [] ++ wire tls1_2 near (record_chunks text) },
      ))
    × Arrives
unfolding Record.new
recv_all-send_application_data_example =
    recv_all-send_application_data tls1_2 (end_with near) (end_with far) near far quiet arrived text
      (some (1 ∷ 0 ∷ [])) refl refl refl refl refl refl
