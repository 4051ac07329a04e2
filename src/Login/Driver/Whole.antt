-- ===== src/Login/Driver/Whole.antt =====
-- `run_login` from its first byte to the open session, against a server that follows the protocol.
use crypto_kiddie.Prelude.{
  ℕ, ◌^◌, ◌<◌, ◌≡◌, refl, ap, ◌∙◌, List, [], ◌∷◌, ◌++◌, append_assoc, flatten, All, Option, none,
  some, length, ok,
}
use crypto_kiddie.Tls.Types.{
  ProtocolVersion, HandshakeType, handshake, change_cipher_spec, client_hello,
}
use crypto_kiddie.Tls.Wire.{encode_record}
use crypto_kiddie.Tls.Transport.{TlsTransport, send_record}
use crypto_kiddie.Tls.Reassembly.{records, AreShort}
use crypto_kiddie.Tls.Flow.{framed}
use crypto_kiddie.KeyTransport.{derive_shared_ukm}
use crypto_kiddie.Prf.{key_block}
use crypto_kiddie.Record
use crypto_kiddie.Record.{RecordCrypto, protect}
use crypto_kiddie.Client.{ClientHandshake, client_certificate, client_record_crypto}
use crypto_kiddie.Client.Agreement.{server_record_crypto}
use crypto_kiddie.Login.Messages.{LoginParams, LoginSession, send_handshake}
use crypto_kiddie.Login.Certificates.{extract_subject_public_point, extract_spki_algorithm}
use crypto_kiddie.Login.Driver.{FlightState, KeyTransport, login_behind_flight, run_login}
use crypto_kiddie.Login.Driver.Begun.{started, started-random, run_login_begun}
use crypto_kiddie.Login.Driver.Flight.{FlightRun, FlightRun-random}
use crypto_kiddie.Login.Driver.Honest.{
  client_flight_lem, flown_state, flown_stream, secret, signed_secret, finished_record,
}
use crypto_kiddie.Login.Driver.Reply.{
  sent_finished, opened_session, read_server_finished-opened_session,
}
use crypto_kiddie.Login.Driver.Taken.{AreFilled, read_server_flight-FlightRun}

-- The first flight leaves the stream's other direction alone.
send_handshake-incoming :
    (t : TlsTransport) (m : HandshakeType) (body : List ℕ)
    → (send_handshake t m body).incoming ≡ t.incoming
unfolding send_handshake send_record
send_handshake-incoming t m body = refl

send_handshake-buf :
    (t : TlsTransport) (m : HandshakeType) (body : List ℕ)
    → (send_handshake t m body).handshake_buf ≡ t.handshake_buf
unfolding send_handshake send_record
send_handshake-buf t m body = refl

-- Where the stream stands behind the client's first flight and the server's.
abbrev pub between : TlsTransport → List ℕ → List ℕ → TlsTransport
between t hello behind_flight = record (send_handshake t client_hello hello) {
  handshake_buf = [];
  incoming = behind_flight;
}

module _ (streebog256 : List ℕ → List ℕ) (params : LoginParams) (signature : List ℕ → List ℕ)
    (key : KeyTransport) (hs : ClientHandshake) (random : List ℕ) where
  -- The server's end of the record layer, before it has protected a record.
  abbrev pub server_keys : RecordCrypto
  server_keys = server_record_crypto (
      key_block streebog256 (secret streebog256 params signature key hs random) hs.client_random
        random)

  abbrev pub behind : ClientHandshake
  behind = flown_state streebog256 params signature key hs random

  -- What the server sends once it has the client's second flight.
  abbrev pub reply : ProtocolVersion → List ℕ
  reply v =
      encode_record change_cipher_spec v (0x01 ∷ [])
      ++ encode_record handshake v
          (sent_finished streebog256 behind server_keys
            (secret streebog256 params signature key hs random)).1

  abbrev pub session : List ℕ → LoginSession
  session leaf =
      opened_session streebog256 behind server_keys
        (secret streebog256 params signature key hs random) leaf
        (finished_record streebog256 params signature key hs random).0

  same_direction :
      (finished_record streebog256 params signature key hs random).0.read ≡ server_keys.write
  unfolding client_record_crypto Record.new protect client_certificate
  same_direction = refl

  flown_stream-incoming :
      (t : TlsTransport)
      → (flown_stream streebog256 params signature key hs random t).incoming ≡ t.incoming
  unfolding send_handshake send_record
  flown_stream-incoming t = refl

  behind_secret : behind.master_secret ≡ some (secret streebog256 params signature key hs random)
  behind_secret = signed_secret streebog256 params signature key hs random

module _ (streebog256 : List ℕ → List ℕ) (size : (m : List ℕ) → length (streebog256 m) ≡ 32)
    (params : LoginParams) (agree : List ℕ → List ℕ → List ℕ → Option KeyTransport)
    (sign : List ℕ → Option (List ℕ)) (signature : List ℕ → List ℕ)
    (signs : (digest : List ℕ) → sign digest ≡ some (signature digest)) (v : ProtocolVersion) where
  login_behind_flight-session :
      (f : FlightState) (leaf random point algorithm rest : List ℕ) (key : KeyTransport)
      (t : TlsTransport)
      → f.leaf ≡ some leaf
      → f.random ≡ some random
      → f.hs.server_random ≡ some random
      → extract_subject_public_point leaf ≡ ok point
      → extract_spki_algorithm leaf ≡ ok algorithm
      → agree point algorithm (derive_shared_ukm streebog256 params.client_random random) ≡ some key
      → t.incoming ≡ reply streebog256 params signature key f.hs random v ++ rest
      → login_behind_flight streebog256 params agree sign f t
        ≡ ok (
          session streebog256 params signature key f.hs random leaf,
          record (flown_stream streebog256 params signature key f.hs random t) { incoming = rest },
        )
  unfolding login_behind_flight
  login_behind_flight-session f leaf random point algorithm rest key t is_leaf is_random recorded
        is_point is_algorithm agreed stream =
      let hs = f.hs in
      let server = server_keys streebog256 params signature key hs random in
      let ms = secret streebog256 params signature key hs random in
      let hs' = behind streebog256 params signature key hs random in
      let sent = sent_finished streebog256 hs' server ms in
      rw
        (
          is_leaf,
          is_random,
          is_point,
          is_algorithm,
          agreed,
          client_flight_lem streebog256 params signature key hs random sign t recorded (signs _),
          read_server_finished-opened_session streebog256 size leaf hs'
              (finished_record streebog256 params signature key hs random).0 server ms v rest
              (flown_stream streebog256 params signature key hs random t) refl
              (behind_secret streebog256 params signature key hs random)
              (same_direction streebog256 params signature key hs random)
              (flown_stream-incoming streebog256 params signature key hs random t
                ∙ stream
                ∙ append_assoc (encode_record change_cipher_spec v (0x01 ∷ []))
                    (encode_record handshake v sent.1) rest),
        )
        refl

  -- A login against a server that follows the protocol ends with an open session. The server's
  -- flight may be cut into records anywhere and its messages before ServerHelloDone come in any
  -- order, as long as a ServerHello and a certificate with a point and an algorithm are among them;
  -- the key agreement gives a key, the token signs every digest, and the server replies to the second
  -- flight with its ChangeCipherSpec and its protected Finished over the whole transcript. Then the
  -- session has the keys that stand behind both Finished messages and the server's leaf, and what
  -- follows on the stream is left unread; no record of the flight is empty, and each message and
  -- each record fits its length field.
  pub run_login-session :
      (t : TlsTransport) (hs : ClientHandshake) (hello : List ℕ) (g : FlightState)
      (messages : List (HandshakeType × List ℕ)) (payloads : List (List ℕ))
      (leaf random point algorithm rest : List ℕ) (key : KeyTransport)
      → started params ≡ some (hs, hello)
      → FlightRun (record { hs = hs; leaf = none; random = none }) messages g
      → All (λ m. length m.1 < 2 ^ 24) messages
      → AreShort v payloads
      → AreFilled payloads
      → t.handshake_buf ++ flatten payloads ≡ framed messages
      → g.leaf ≡ some leaf
      → g.random ≡ some random
      → extract_subject_public_point leaf ≡ ok point
      → extract_spki_algorithm leaf ≡ ok algorithm
      → agree point algorithm (derive_shared_ukm streebog256 params.client_random random) ≡ some key
      → t.incoming
        ≡ records v payloads ++ (reply streebog256 params signature key g.hs random v ++ rest)
      → run_login streebog256 t params agree sign
        ≡ some (
            ok (
              session streebog256 params signature key g.hs random leaf,
              record (flown_stream streebog256 params signature key g.hs random (
                  between t hello (reply streebog256 params signature key g.hs random v ++ rest))) {
                    incoming = rest;
                  },
            ))
  run_login-session t hs hello g messages payloads leaf random point algorithm rest key starts
        flight fits short filled framing is_leaf is_random is_point is_algorithm agreed stream =
      let replied = reply streebog256 params signature key g.hs random v ++ rest in
      let sent = send_handshake t client_hello hello in
      run_login_begun streebog256 t params agree sign hs hello starts
      ∙ rw
          (
            read_server_flight-FlightRun v hs g messages payloads sent replied flight fits short
                filled (send_handshake-incoming t client_hello hello ∙ stream)
                (ap (λ (b : List ℕ). b ++ flatten payloads)
                    (send_handshake-buf t client_hello hello)
                  ∙ framing),
            login_behind_flight-session g leaf random point algorithm rest key
                (between t hello replied) is_leaf is_random
                (FlightRun-random (record { hs = hs; leaf = none; random = none }) g messages flight
                    (started-random params hs hello starts)
                  ∙ is_random)
                is_point is_algorithm agreed refl,
          )
          refl
