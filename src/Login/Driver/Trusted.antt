-- ===== src/Login/Driver/Trusted.antt =====
-- What a login that ends with a session has established, whatever the peer sent.
use crypto_kiddie.Prelude.{
  ℕ, ◌≡◌, sym, ap, ◌∙◌, List, ◌∷◌, ◌++◌, Option, none, some, length, Result, ok, some_injective,
  and_then-ok, Option-cases, inl, inr,
}
use mathlib.Core.Option
use crypto_kiddie.Tls.Types.{HandshakeType, client_hello}
use crypto_kiddie.Tls.Transport.{TlsTransport}
use crypto_kiddie.Tls.Flow.{framed}
use crypto_kiddie.Client.{ClientHandshake}
use crypto_kiddie.Login.Messages.{LoginError, LoginParams, LoginSession, send_handshake}
use crypto_kiddie.Login.Driver.{
  FlightState, KeyTransport, read_server_flight, login_behind_flight, run_login,
}
use crypto_kiddie.Login.Driver.Finish.{Checked}
use crypto_kiddie.Login.Driver.Flight.{FlightRun, FlightRun-transcript}
use crypto_kiddie.Login.Driver.Heard.{read_server_flight-Heard}
use crypto_kiddie.Login.Driver.Begun.{
  started, started-random, started-transcript, run_login_lem, run_login_begun, behind_hello,
}
use crypto_kiddie.Login.Driver.Flight.{FlightRun-random}
use crypto_kiddie.Login.Driver.Traded.{
  Traded, second_flight, flown_state-transcript, login_behind_flight-Traded,
}

module _ (streebog256 : List ℕ → List ℕ) where
  module _ (params : LoginParams) (agree : List ℕ → List ℕ → List ℕ → Option KeyTransport)
      (sign : List ℕ → Option (List ℕ)) (session : LoginSession) where
    -- What stands behind a session that a login has opened.
    pub record Trusted : Type 0 where
      pub begun : ClientHandshake
      pub hello : List ℕ
      pub noted : FlightState
      pub messages : List (HandshakeType × List ℕ)
      pub starts : started params ≡ some (begun, hello)
      pub flight : FlightRun (record { hs = begun; leaf = none; random = none }) messages noted
      pub traded : Traded streebog256 params agree sign session noted
      pub transcript :
          session.handshake.transcript.content
          ≡ framed ((client_hello, hello) ∷ messages)
            ++ framed (
                second_flight streebog256 params traded.signature traded.key noted.hs traded.random)

module _ (streebog256 : List ℕ → List ℕ) (size : (m : List ℕ) → length (streebog256 m) ≡ 32)
    (params : LoginParams) (agree : List ℕ → List ℕ → List ℕ → Option KeyTransport)
    (sign : List ℕ → Option (List ℕ)) where
  -- A session carries the transcript that its Finished was checked against.
  Checked-transcript :
      (leaf payload : List ℕ) (hs : ClientHandshake) (session : LoginSession)
      → Checked streebog256 leaf hs payload session
      → session.handshake.transcript.content ≡ hs.transcript.content
  Checked-transcript leaf payload hs session c =
      ap (λ (s : LoginSession). s.handshake.transcript.content) c.result

  behind_hello-Trusted :
      (t t' : TlsTransport) (hs : ClientHandshake) (hello : List ℕ) (session : LoginSession)
      → started params ≡ some (hs, hello)
      → behind_hello streebog256 t params agree sign (hs, hello) ≡ ok (session, t')
      → Trusted streebog256 params agree sign session
  behind_hello-Trusted t t' hs hello session starts e =
      let first : FlightState = record { hs = hs; leaf = none; random = none } in
      let (got, r, e1) =
        and_then-ok (read_server_flight hs (send_handshake t client_hello hello))
          (λ got. login_behind_flight streebog256 params agree sign got.0 got.1) (session, t') e in
      let (messages, flight) =
        read_server_flight-Heard hs got.0 (send_handshake t client_hello hello) got.1 r in
      let traded =
        login_behind_flight-Traded streebog256 size params agree sign got.0 got.1 t' session
          (FlightRun-random first got.0 messages flight (started-random params hs hello starts))
          e1 in
      record {
        begun = hs;
        hello = hello;
        noted = got.0;
        messages = messages;
        starts = starts;
        flight = flight;
        traded = traded;
        transcript =
            Checked-transcript traded.leaf traded.payload _ session traded.checked
            ∙ flown_state-transcript streebog256 params traded.signature traded.key got.0.hs
                traded.random
            ∙ ap
                (λ (x : List ℕ).
                  x
                  ++ framed (
                      second_flight streebog256 params traded.signature traded.key got.0.hs
                        traded.random))
                (FlightRun-transcript first got.0 messages flight
                  ∙ ap (λ (x : List ℕ). x ++ framed messages)
                      (started-transcript params hs hello starts));
      }

  -- Whatever the peer sends, a login that ends with a session has heard a flight of a server, agreed
  -- on a key with the point and the algorithm of the leaf in it, had the token sign the transcript
  -- so far, and checked the server's Finished: its record opens under the connection's keys, and its
  -- twelve bytes are the verify data of the master secret over the transcript, which is the
  -- ClientHello, the server's flight and the client's second flight, each message once and in order.
  pub run_login-Trusted :
      (t t' : TlsTransport) (session : LoginSession)
      → run_login streebog256 t params agree sign ≡ some (ok (session, t'))
      → Trusted streebog256 params agree sign session
  run_login-Trusted t t' session e = elim (Option-cases (started params)) [
    | inl missing ↦
        let failed : run_login streebog256 t params agree sign ≡ none =
          run_login_lem streebog256 t params agree sign
          ∙ ap
              (λ o.
                Option.map {B = Result LoginError (LoginSession × TlsTransport)}
                  (behind_hello streebog256 t params agree sign) o)
              missing in
        absurd cc
    | inr ((hs, hello), starts) ↦
        behind_hello-Trusted t t' hs hello session starts (
          some_injective
            (sym (run_login_begun streebog256 t params agree sign hs hello starts) ∙ e))
  ]
