-- ===== src/Login/Driver/Heard.antt =====
-- What the loop of `read_server_flight` has accepted, whatever the peer sent.
use crypto_kiddie.Prelude.{
  ℕ, zero, suc, ◌+◌, ◌≡◌, refl, sym, ap, ◌∙◌, subst, List, [], ◌∷◌, Bool, true, false, Option, none,
  some, length, ltb, ltb→le, Bool-cases, inl, inr, Result, ok, ok_injective, and_then, and_then-ok,
  map_err,
}
use crypto_kiddie.Tls.Types.{
  HandshakeType, client_hello, server_hello, certificate, server_key_exchange, certificate_request,
  server_hello_done, certificate_verify, client_key_exchange, finished, handshake_type_from_u8,
}
use crypto_kiddie.Tls.Transport.{TlsTransport, recv_handshake_message}
use crypto_kiddie.Client.{ClientHandshake, record_incoming}
use crypto_kiddie.Login.Messages.{LoginError, transport, first_certificate}
use crypto_kiddie.Login.Driver.{
  FlightState, note_typed, note_server_message, flight_loop, read_server_flight,
}
use crypto_kiddie.Login.Driver.Flight.{
  Accepts, hello_taken, chain_taken, exchange_taken, request_taken, FlightRun, done, then_message,
}

-- What a message that is noted was.
data Noted (f : FlightState) (body : List ℕ) : FlightState × Bool → Type 0 where
  goes_on : (t : HandshakeType) (g : FlightState) → Accepts f (t, body) g → Noted f body (g, false)
  ends : Noted f body (record f { hs = record_incoming f.hs server_hello_done body }, true)

note_typed-Noted :
    (f : FlightState) (o : Option HandshakeType) (n : ℕ) (body : List ℕ) (x : FlightState × Bool)
    → note_typed f o n body ≡ ok x
    → Noted f body x
unfolding note_typed
note_typed-Noted f none n body x e = absurd cc
note_typed-Noted f (some client_hello) n body x e = absurd cc
note_typed-Noted f (some server_hello) n body x e = elim (Bool-cases (ltb (length body) 34)) [
  | inl short ↦ absurd (cc (rw short at e))
  | inr long ↦
      subst (Noted f body) (ok_injective (rw long at e))
        (goes_on server_hello _ (hello_taken f body (ltb→le _ _ long)))
]
note_typed-Noted f (some certificate) n body x e =
    let (leaf, is, e') =
      and_then-ok (first_certificate body)
        (λ leaf.
          ok (record f { hs = record_incoming f.hs certificate body; leaf = some leaf }, false))
        x e in
    subst (Noted f body) (ok_injective e') (goes_on certificate _ (chain_taken f body leaf is))
note_typed-Noted f (some server_key_exchange) n body x e =
    subst (Noted f body) (ok_injective e) (goes_on server_key_exchange _ (exchange_taken f body))
note_typed-Noted f (some certificate_request) n body x e =
    subst (Noted f body) (ok_injective e) (goes_on certificate_request _ (request_taken f body))
note_typed-Noted f (some server_hello_done) n body x e = subst (Noted f body) (ok_injective e) ends
note_typed-Noted f (some certificate_verify) n body x e = absurd cc
note_typed-Noted f (some client_key_exchange) n body x e = absurd cc
note_typed-Noted f (some finished) n body x e = absurd cc

note_server_message-Noted :
    (f : FlightState) (n : ℕ) (body : List ℕ) (x : FlightState × Bool)
    → note_server_message f n body ≡ ok x
    → Noted f body x
unfolding note_server_message
note_server_message-Noted f n body x e = note_typed-Noted f (handshake_type_from_u8 n) n body x e

-- The loop behind a message.
abbrev go_on :
    ℕ → TlsTransport → FlightState × Bool → Result LoginError (FlightState × TlsTransport)
go_on rounds t noted = elim noted.1 [
  | true ↦ ok (noted.0, t)
  | false ↦ flight_loop rounds noted.0 t
]

abbrev react :
    ℕ → FlightState → (ℕ × List ℕ) × TlsTransport → Result LoginError (FlightState × TlsTransport)
react rounds f got = and_then (note_server_message f got.0.0 got.0.1) (go_on rounds got.1)

flight_loop_round :
    (rounds : ℕ) (f : FlightState) (t : TlsTransport)
    → flight_loop (suc rounds) f t
      ≡ and_then (map_err transport (recv_handshake_message t)) (react rounds f)
unfolding flight_loop
flight_loop_round rounds f t = refl

abbrev Heard : FlightState → FlightState → Type 0
Heard f g = (messages : List (HandshakeType × List ℕ)) × FlightRun f messages g

go_on-Heard :
    (rounds : ℕ) (f g : FlightState) (t t' : TlsTransport) (body : List ℕ) (x : FlightState × Bool)
    → Noted f body x
    → go_on rounds t x ≡ ok (g, t')
    → ((next : FlightState) → flight_loop rounds next t ≡ ok (g, t') → Heard next g)
    → Heard f g
go_on-Heard rounds f g t t' body x (goes_on type next a) e later =
    let (messages, flight) = later next e in
    ((type, body) ∷ messages, then_message f next g (type, body) messages a flight)
go_on-Heard rounds f g t t' body x ends e later =
    let same = ap (λ (y : FlightState × TlsTransport). y.0) (ok_injective e) in
    (
      (server_hello_done, body) ∷ [],
      subst (FlightRun f ((server_hello_done, body) ∷ [])) same (done f body),
    )

flight_loop-Heard :
    (rounds : ℕ) (f g : FlightState) (t t' : TlsTransport)
    → flight_loop rounds f t ≡ ok (g, t')
    → Heard f g
unfolding flight_loop
flight_loop-Heard zero f g t t' e = absurd cc
flight_loop-Heard (suc rounds) f g t t' e =
    let (got, r, e1) =
      and_then-ok (map_err transport (recv_handshake_message t)) (react rounds f) (g, t')
        (sym (flight_loop_round rounds f t) ∙ e) in
    let (noted, n, e2) =
      and_then-ok (note_server_message f got.0.0 got.0.1) (go_on rounds got.1) (g, t') e1 in
    go_on-Heard rounds f g got.1 t' got.0.1 noted
      (note_server_message-Noted f got.0.0 got.0.1 noted n) e2
      (λ next. flight_loop-Heard rounds next g got.1 t')

-- Whatever the peer sends, a flight that `read_server_flight` accepts is one: a ServerHelloDone
-- behind messages of the four other types of a server, each ServerHello with a whole random and each
-- Certificate with a first certificate.
pub read_server_flight-Heard :
    (hs : ClientHandshake) (g : FlightState) (t t' : TlsTransport)
    → read_server_flight hs t ≡ ok (g, t')
    → (messages : List (HandshakeType × List ℕ)) × FlightRun
        (record { hs = hs; leaf = none; random = none })
        messages
        g
unfolding read_server_flight
read_server_flight-Heard hs g t t' e =
    flight_loop-Heard (suc (length t.incoming + length t.handshake_buf))
      (record { hs = hs; leaf = none; random = none }) g t t' e
