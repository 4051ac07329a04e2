-- ===== src/Login/Driver/Traded.antt =====
-- What `login_behind_flight` has done where it ends with a session.
use crypto_kiddie.Prelude.{
  ℕ, ◌≡◌, refl, sym, ap, ◌∙◌, List, [], ◌∷◌, ◌++◌, append_assoc, append-nil, Option, some, length,
  Result, ok, ok_injective, some_injective, and_then, and_then-ok, ok_or, ok_or-ok,
}
use crypto_kiddie.Tls.Types.{
  HandshakeType, handshake, certificate, client_key_exchange, certificate_verify, finished,
}
use crypto_kiddie.Tls.Wire.{TlsRecord}
use crypto_kiddie.Tls.Transport.{TlsTransport}
use crypto_kiddie.Tls.Flow.{framed}
use crypto_kiddie.Handshake.{push_message, frame_handshake}
use crypto_kiddie.KeyTransport.{derive_shared_ukm}
use crypto_kiddie.Client.{
  ClientHandshake, client_certificate, certificate_body, record_certificate_verify,
  certificate_verify_digest,
}
use crypto_kiddie.Client.Steps.{exchanged}
use crypto_kiddie.Login.Messages.{
  LoginError, LoginParams, LoginSession, protocol, no_certificate, no_server_hello_message,
  vko_failed,
}
use crypto_kiddie.Login.Certificates.{extract_subject_public_point, extract_spki_algorithm}
use crypto_kiddie.Login.Driver.{
  FlightState, KeyTransport, Flown, client_flight, login_behind_flight, check_server_finished,
  read_server_finished, read_change_cipher_spec, recv_record, expect,
}
use crypto_kiddie.Login.Driver.Finish.{Checked, check_server_finished-Checked}
use crypto_kiddie.Login.Driver.Honest.{
  client_flight-Sent, flown_state, keyed, exchange_body, verify_body, client_verify_data,
}

four_behind :
    (t a b c d : List ℕ) → ((((t ++ a) ++ b) ++ c) ++ d) ≡ t ++ (a ++ (b ++ (c ++ (d ++ []))))
four_behind t a b c d =
    append_assoc ((t ++ a) ++ b) c d
    ∙ append_assoc (t ++ a) b (c ++ d)
    ∙ append_assoc t a (b ++ (c ++ d))
    ∙ ap (λ (e : List ℕ). t ++ (a ++ (b ++ (c ++ e)))) (sym (append-nil d))

module _ (streebog256 : List ℕ → List ℕ) where
  -- The session that is opened was checked against the payload of a record.
  read_server_finished-ok :
      (leaf : List ℕ) (hs : ClientHandshake) (t t' : TlsTransport) (session : LoginSession)
      → read_server_finished streebog256 leaf hs t ≡ ok (session, t')
      → (payload : List ℕ) × (check_server_finished streebog256 leaf hs payload ≡ ok session)
  unfolding read_server_finished
  read_server_finished-ok leaf hs t t' session e =
      let end : TlsRecord × TlsTransport
          → LoginSession
          → Result LoginError (LoginSession × TlsTransport) =
        λ fin. λ s. ok (s, fin.1) in
      let check : TlsRecord × TlsTransport
          → Unit
          → Result LoginError (LoginSession × TlsTransport) =
        λ fin. λ _. and_then (check_server_finished streebog256 leaf hs fin.0.payload) (end fin) in
      let typed : TlsRecord × TlsTransport → Result LoginError (LoginSession × TlsTransport) =
        λ fin. and_then (expect handshake fin.0.content_type) (check fin) in
      let (t1, _, e1) =
        and_then-ok (read_change_cipher_spec t) (λ t1. and_then (recv_record t1) typed)
          (session, t') e in
      let (fin, _, e2) = and_then-ok (recv_record t1) typed (session, t') e1 in
      let (u, _, e3) =
        and_then-ok (expect handshake fin.0.content_type) (check fin) (session, t') e2 in
      let (s, checked, e4) =
        and_then-ok (check_server_finished streebog256 leaf hs fin.0.payload) (end fin)
          (session, t') e3 in
      (
        fin.0.payload,
        checked ∙ ap ok (ap (λ (x : LoginSession × TlsTransport). x.0) (ok_injective e4)),
      )

  -- The messages of the client's second flight, in order.
  abbrev pub second_flight :
      LoginParams → List ℕ → KeyTransport → ClientHandshake → List ℕ → List (HandshakeType × List ℕ)
  second_flight params signature key hs random =
      (certificate, certificate_body params.client_cert_chain)
      ∷ (client_key_exchange, exchange_body streebog256 params (λ m. signature) key hs random)
      ∷ (certificate_verify, verify_body streebog256 params (λ m. signature) key hs random)
      ∷ (finished, client_verify_data streebog256 params (λ m. signature) key hs random)
      ∷ []

  pub flown_state-transcript :
      (params : LoginParams) (signature : List ℕ) (key : KeyTransport) (hs : ClientHandshake)
      (random : List ℕ)
      → (flown_state streebog256 params (λ m. signature) key hs random).transcript.content
        ≡ hs.transcript.content ++ framed (second_flight params signature key hs random)
  unfolding client_certificate exchanged record_certificate_verify push_message
  flown_state-transcript params signature key hs random =
      let a = frame_handshake certificate (certificate_body params.client_cert_chain) in
      let b =
        frame_handshake client_key_exchange
          (exchange_body streebog256 params (λ m. signature) key hs random) in
      let c =
        frame_handshake certificate_verify
          (verify_body streebog256 params (λ m. signature) key hs random) in
      let d =
        frame_handshake finished
          (client_verify_data streebog256 params (λ m. signature) key hs random) in
      four_behind hs.transcript.content a b c d

  module _ (params : LoginParams) (agree : List ℕ → List ℕ → List ℕ → Option KeyTransport)
      (sign : List ℕ → Option (List ℕ)) (session : LoginSession) where
    -- What stands between the server's flight and the session.
    pub record Traded (f : FlightState) : Type 0 where
      pub leaf : List ℕ
      pub random : List ℕ
      pub point : List ℕ
      pub algorithm : List ℕ
      pub key : KeyTransport
      pub signature : List ℕ
      pub payload : List ℕ
      pub is_leaf : f.leaf ≡ some leaf
      pub is_random : f.hs.server_random ≡ some random
      pub is_point : extract_subject_public_point leaf ≡ ok point
      pub is_algorithm : extract_spki_algorithm leaf ≡ ok algorithm
      pub agreed :
          agree point algorithm (derive_shared_ukm streebog256 params.client_random random)
          ≡ some key
      pub signs :
          sign (
            certificate_verify_digest streebog256
              (keyed streebog256 params (λ m. signature) key f.hs random))
          ≡ some signature
      pub checked :
          Checked streebog256 leaf
            (flown_state streebog256 params (λ m. signature) key f.hs random)
            payload
            session

module _ (streebog256 : List ℕ → List ℕ) (size : (m : List ℕ) → length (streebog256 m) ≡ 32)
    (params : LoginParams) (agree : List ℕ → List ℕ → List ℕ → Option KeyTransport)
    (sign : List ℕ → Option (List ℕ)) where
  -- The stages of `login_behind_flight`.
  module _ (f : FlightState) (t : TlsTransport) where
    abbrev Done : Type 0
    Done = Result LoginError (LoginSession × TlsTransport)

    abbrev reply_of : List ℕ → Flown → Done
    reply_of leaf flown = read_server_finished streebog256 leaf flown.hs flown.stream

    abbrev fly_with : List ℕ → KeyTransport → Done
    fly_with leaf key = and_then (client_flight streebog256 params sign key f.hs t) (reply_of leaf)

    abbrev agree_on : List ℕ → List ℕ → List ℕ → List ℕ → Done
    agree_on leaf random point algorithm =
        and_then
          (ok_or vko_failed
            (agree point algorithm (derive_shared_ukm streebog256 params.client_random random)))
          (fly_with leaf)

    abbrev algorithm_of : List ℕ → List ℕ → List ℕ → Done
    algorithm_of leaf random point =
        and_then (extract_spki_algorithm leaf) (agree_on leaf random point)

    abbrev point_in : List ℕ → List ℕ → Done
    point_in leaf random = and_then (extract_subject_public_point leaf) (algorithm_of leaf random)

    abbrev random_with : List ℕ → Done
    random_with leaf = and_then (ok_or (protocol no_server_hello_message) f.random) (point_in leaf)

    stages :
        login_behind_flight streebog256 params agree sign f t
        ≡ and_then (ok_or (protocol no_certificate) f.leaf) random_with
    unfolding login_behind_flight
    stages = refl

    pub login_behind_flight-Traded :
        (t' : TlsTransport) (session : LoginSession)
        → f.hs.server_random ≡ f.random
        → login_behind_flight streebog256 params agree sign f t ≡ ok (session, t')
        → Traded streebog256 params agree sign session f
    login_behind_flight-Traded t' session same e =
        let out : LoginSession × TlsTransport = (session, t') in
        let (leaf, l, e1) =
          and_then-ok (ok_or (protocol no_certificate) f.leaf) random_with out (sym stages ∙ e) in
        let (random0, r, e2) =
          and_then-ok (ok_or (protocol no_server_hello_message) f.random) (point_in leaf) out e1 in
        let (point, p, e3) =
          and_then-ok (extract_subject_public_point leaf) (algorithm_of leaf random0) out e2 in
        let (algorithm, a, e4) =
          and_then-ok (extract_spki_algorithm leaf) (agree_on leaf random0 point) out e3 in
        let ukm = derive_shared_ukm streebog256 params.client_random random0 in
        let (key, k, e5) =
          and_then-ok (ok_or vko_failed (agree point algorithm ukm)) (fly_with leaf) out e4 in
        let (flown, c, e6) =
          and_then-ok (client_flight streebog256 params sign key f.hs t) (reply_of leaf) out e5 in
        let sent = client_flight-Sent streebog256 params key f.hs sign t flown c in
        let (payload, checked) =
          read_server_finished-ok streebog256 leaf flown.hs flown.stream t' session e6 in
        let randoms : sent.random ≡ random0 = some_injective (
          sym sent.recorded
          ∙ same
          ∙ ok_or-ok (protocol no_server_hello_message) f.random random0 r) in
        record {
          leaf = leaf;
          random = sent.random;
          point = point;
          algorithm = algorithm;
          key = key;
          signature = sent.signature;
          payload = payload;
          is_leaf = ok_or-ok (protocol no_certificate) f.leaf leaf l;
          is_random = sent.recorded;
          is_point = p;
          is_algorithm = a;
          agreed =
              ap
                (λ (x : List ℕ).
                  agree point algorithm (derive_shared_ukm streebog256 params.client_random x))
                randoms
              ∙ ok_or-ok vko_failed (agree point algorithm ukm) key k;
          signs = sent.signs;
          checked =
              check_server_finished-Checked streebog256 size leaf
                (flown_state streebog256 params (λ m. sent.signature) key f.hs sent.random) payload
                session
                (ap (λ (x : Flown). check_server_finished streebog256 leaf x.hs payload)
                    (sym sent.is)
                  ∙ checked);
        }
