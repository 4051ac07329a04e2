-- ===== src/Login/Driver/Begun.antt =====
-- `run_login` up to the ClientHello.
use crypto_kiddie.Prelude.{ℕ, ◌≡◌, refl, ap, ◌∙◌, List, [], Option, none, some, Result, and_then}
use mathlib.Core.Option
use crypto_kiddie.Tls.Types.{tls1_2, client_hello}
use crypto_kiddie.Tls.Transport.{TlsTransport}
use crypto_kiddie.Handshake
use crypto_kiddie.Handshake.{frame_handshake, push_message}
use crypto_kiddie.Client.{ClientHandshake, start}
use crypto_kiddie.Client.Agreement.{begun, start_lem}
use crypto_kiddie.Login.Messages.{
  LoginError, LoginParams, LoginSession, send_handshake, sni_extension,
}
use crypto_kiddie.Login.Driver.{KeyTransport, read_server_flight, login_behind_flight, run_login}

-- The call of `start`.
abbrev pub started : LoginParams → Option (ClientHandshake × List ℕ)
started params =
    start tls1_2 params.client_random [] params.cipher_suites (sni_extension params.server_name)

-- The client has its ClientHello alone in the transcript, and no server's random.
pub started-begun :
    (params : LoginParams) (hs : ClientHandshake) (hello : List ℕ)
    → started params ≡ some (hs, hello)
    → hs ≡ begun tls1_2 params.client_random hello
started-begun params hs hello e =
    start_lem tls1_2 params.client_random [] params.cipher_suites (sni_extension params.server_name)
      hs hello e

pub started-random :
    (params : LoginParams) (hs : ClientHandshake) (hello : List ℕ)
    → started params ≡ some (hs, hello)
    → hs.server_random ≡ none
started-random params hs hello e =
    ap (λ (h : ClientHandshake). h.server_random) (started-begun params hs hello e)

pub started-transcript :
    (params : LoginParams) (hs : ClientHandshake) (hello : List ℕ)
    → started params ≡ some (hs, hello)
    → hs.transcript.content ≡ frame_handshake client_hello hello
unfolding push_message Handshake.new
started-transcript params hs hello e =
    ap (λ (h : ClientHandshake). h.transcript.content) (started-begun params hs hello e)

module _ (streebog256 : List ℕ → List ℕ) (t : TlsTransport) (params : LoginParams)
    (agree : List ℕ → List ℕ → List ℕ → Option KeyTransport) (sign : List ℕ → Option (List ℕ)) where
  abbrev pub behind_hello :
      ClientHandshake × List ℕ → Result LoginError (LoginSession × TlsTransport)
  behind_hello begun =
      and_then (read_server_flight begun.0 (send_handshake t client_hello begun.1))
        (λ got. login_behind_flight streebog256 params agree sign got.0 got.1)

  pub run_login_lem :
      run_login streebog256 t params agree sign
      ≡ Option.map {B = Result LoginError (LoginSession × TlsTransport)} behind_hello
          (started params)
  unfolding run_login
  run_login_lem = refl

  pub run_login_begun :
      (hs : ClientHandshake) (hello : List ℕ)
      → started params ≡ some (hs, hello)
      → run_login streebog256 t params agree sign ≡ some (behind_hello (hs, hello))
  run_login_begun hs hello e =
      run_login_lem
      ∙ ap (λ o. Option.map {B = Result LoginError (LoginSession × TlsTransport)} behind_hello o) e
