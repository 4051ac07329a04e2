-- ===== src/Login/Driver/Flight.antt =====
-- The server's flight: which messages the loop of `read_server_flight` takes, and what it leaves.
use crypto_kiddie.Prelude.{
  ℕ, ◌≤◌, ◌≡◌, refl, sym, ap, ◌∙◌, List, [], ◌∷◌, ◌++◌, append_assoc, append-nil, true, false, some,
  length, take, drop, le→ltb, ok,
}
use crypto_kiddie.Tls.Types.{
  HandshakeType, server_hello, certificate, server_key_exchange, certificate_request,
  server_hello_done, handshake_type_code, handshake_type_from_u8-code_iff,
}
use crypto_kiddie.Tls.Flow.{framed}
use crypto_kiddie.Handshake.{frame_handshake, push_message}
use crypto_kiddie.Client.{record_server_hello, record_incoming}
use crypto_kiddie.Login.Messages.{first_certificate}
use crypto_kiddie.Login.Driver.{FlightState, note_typed, note_server_message}

-- A message before the end of the flight, in any order.
pub data Accepts : FlightState → HandshakeType × List ℕ → FlightState → Type 0 where
  hello_taken :
      (f : FlightState) (body : List ℕ)
      → 34 ≤ length body
      → Accepts f
          (server_hello, body)
          (record f {
            hs = record_server_hello f.hs (take 32 (drop 2 body)) body;
            random = some (take 32 (drop 2 body));
          })
  chain_taken :
      (f : FlightState) (body leaf : List ℕ)
      → first_certificate body ≡ ok leaf
      → Accepts f
          (certificate, body)
          (record f { hs = record_incoming f.hs certificate body; leaf = some leaf })
  exchange_taken :
      (f : FlightState) (body : List ℕ)
      → Accepts f
          (server_key_exchange, body)
          (record f { hs = record_incoming f.hs server_key_exchange body })
  request_taken :
      (f : FlightState) (body : List ℕ)
      → Accepts f
          (certificate_request, body)
          (record f { hs = record_incoming f.hs certificate_request body })

-- A flight ends with its ServerHelloDone.
pub data FlightRun : FlightState → List (HandshakeType × List ℕ) → FlightState → Type 0 where
  done :
      (f : FlightState) (body : List ℕ)
      → FlightRun f
          ((server_hello_done, body) ∷ [])
          (record f { hs = record_incoming f.hs server_hello_done body })
  then_message :
      (f g h : FlightState) (m : HandshakeType × List ℕ) (ms : List (HandshakeType × List ℕ))
      → Accepts f m g
      → FlightRun g ms h
      → FlightRun f (m ∷ ms) h

note_lem :
    (f : FlightState) (t : HandshakeType) (body : List ℕ)
    → note_server_message f (handshake_type_code t) body
      ≡ note_typed f (some t) (handshake_type_code t) body
unfolding note_server_message
note_lem f t body = rw ((handshake_type_from_u8-code_iff (handshake_type_code t) t).1 refl) refl

Accepts-note_typed :
    (f g : FlightState) (m : HandshakeType × List ℕ)
    → Accepts f m g
    → note_typed f (some m.0) (handshake_type_code m.0) m.1 ≡ ok (g, false)
unfolding note_typed
Accepts-note_typed f g m (hello_taken _ body long) = rw (le→ltb (length body) 34 long) refl
Accepts-note_typed f g m (chain_taken _ body leaf e) = rw e refl
Accepts-note_typed f g m (exchange_taken _ body) = refl
Accepts-note_typed f g m (request_taken _ body) = refl

pub Accepts-note :
    (f g : FlightState) (m : HandshakeType × List ℕ)
    → Accepts f m g
    → note_server_message f (handshake_type_code m.0) m.1 ≡ ok (g, false)
Accepts-note f g m a = note_lem f m.0 m.1 ∙ Accepts-note_typed f g m a

pub note-done :
    (f : FlightState) (body : List ℕ)
    → note_server_message f (handshake_type_code server_hello_done) body
      ≡ ok (record f { hs = record_incoming f.hs server_hello_done body }, true)
unfolding note_typed
note-done f body = note_lem f server_hello_done body

Accepts-transcript :
    (f g : FlightState) (m : HandshakeType × List ℕ)
    → Accepts f m g
    → g.hs.transcript.content ≡ f.hs.transcript.content ++ frame_handshake m.0 m.1
unfolding record_server_hello record_incoming push_message
Accepts-transcript f g m (hello_taken _ body long) = refl
Accepts-transcript f g m (chain_taken _ body leaf e) = refl
Accepts-transcript f g m (exchange_taken _ body) = refl
Accepts-transcript f g m (request_taken _ body) = refl

-- A flight adds exactly its messages, framed, to the transcript.
pub FlightRun-transcript :
    (f g : FlightState) (ms : List (HandshakeType × List ℕ))
    → FlightRun f ms g
    → g.hs.transcript.content ≡ f.hs.transcript.content ++ framed ms
unfolding record_incoming push_message
FlightRun-transcript f g ms (done _ body) =
    ap (λ (x : List ℕ). f.hs.transcript.content ++ x)
      (sym (append-nil (frame_handshake server_hello_done body)))
FlightRun-transcript f g ms (then_message _ next _ m rest a flight) =
    FlightRun-transcript next g rest flight
    ∙ ap (λ (t : List ℕ). t ++ framed rest) (Accepts-transcript f next m a)
    ∙ append_assoc f.hs.transcript.content (frame_handshake m.0 m.1) (framed rest)

Accepts-random :
    (f g : FlightState) (m : HandshakeType × List ℕ)
    → Accepts f m g
    → f.hs.server_random ≡ f.random
    → g.hs.server_random ≡ g.random
unfolding record_server_hello record_incoming
Accepts-random f g m (hello_taken _ body long) e = refl
Accepts-random f g m (chain_taken _ body leaf is) e = e
Accepts-random f g m (exchange_taken _ body) e = e
Accepts-random f g m (request_taken _ body) e = e

-- The random that the loop keeps is the one that the handshake has recorded.
pub FlightRun-random :
    (f g : FlightState) (ms : List (HandshakeType × List ℕ))
    → FlightRun f ms g
    → f.hs.server_random ≡ f.random
    → g.hs.server_random ≡ g.random
unfolding record_incoming
FlightRun-random f g ms (done _ body) e = e
FlightRun-random f g ms (then_message _ next _ m rest a flight) e =
    FlightRun-random next g rest flight (Accepts-random f next m a e)
