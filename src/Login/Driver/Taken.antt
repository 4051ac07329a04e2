-- ===== src/Login/Driver/Taken.antt =====
-- `read_server_flight` on a stream that carries a flight, wherever the peer cut it into records.
use crypto_kiddie.Prelude.{
  ℕ, zero, suc, ◌+◌, ◌^◌, ◌≤◌, ◌<◌, ◌≡◌, refl, sym, ap, ◌∙◌, subst, arith, List, [], ◌∷◌, ◌++◌,
  flatten, length, length-append, All, All-right, none, ok,
}
use crypto_kiddie.Tls.Types.{
  ProtocolVersion, HandshakeType, server_hello_done, handshake, handshake_type_code,
}
use crypto_kiddie.Tls.Wire.{encode_record}
use crypto_kiddie.Tls.Transport.{TlsTransport, recv_handshake_message}
use crypto_kiddie.Tls.Reassembly.{records, AreShort}
use crypto_kiddie.Tls.Flow.{framed, received, recv_next, recv_step}
use crypto_kiddie.Handshake.{frame_handshake}
use crypto_kiddie.Client.{ClientHandshake, record_incoming}
use crypto_kiddie.Login.Driver.{FlightState, flight_loop, read_server_flight}
use crypto_kiddie.Login.Driver.Flight.{Accepts, FlightRun, done, then_message, Accepts-note}

flight_loop_done :
    (rounds : ℕ) (f : FlightState) (t t' : TlsTransport) (body : List ℕ)
    → recv_handshake_message t ≡ ok ((handshake_type_code server_hello_done, body), t')
    → flight_loop (suc rounds) f t
      ≡ ok (record f { hs = record_incoming f.hs server_hello_done body }, t')
unfolding flight_loop
flight_loop_done rounds f t t' body e = rw (flight_loop, e) refl

flight_loop_next :
    (rounds : ℕ) (f g : FlightState) (t t' : TlsTransport) (m : HandshakeType × List ℕ)
    → Accepts f m g
    → recv_handshake_message t ≡ ok (received m, t')
    → flight_loop (suc rounds) f t ≡ flight_loop rounds g t'
unfolding flight_loop
flight_loop_next rounds f g t t' m a e = rw (flight_loop, e, Accepts-note f g m a) refl

-- Records that carry nothing are left out.
abbrev pub AreFilled : List (List ℕ) → Type 0
AreFilled payloads = All (λ p. 0 < length p) payloads

nothing_left :
    (buf : List ℕ) (payloads : List (List ℕ))
    → AreFilled payloads
    → buf ++ flatten payloads ≡ []
    → (buf ≡ []) × (payloads ≡ [])
unfolding flatten
nothing_left [] [] filled e = (refl, refl)
nothing_left [] ((x ∷ p) ∷ payloads) filled e = absurd (omega (arith, ap length e))
nothing_left [] ([] ∷ payloads) filled e = absurd (omega (arith, filled.0))
nothing_left (x ∷ buf) payloads filled e = absurd (omega (arith, ap length e))

module _ (v : ProtocolVersion) where
  flight_loop-FlightRun :
      (rounds : ℕ) (f g : FlightState) (messages : List (HandshakeType × List ℕ))
      (payloads : List (List ℕ)) (t : TlsTransport) (rest : List ℕ)
      → FlightRun f messages g
      → length messages ≤ rounds
      → All (λ m. length m.1 < 2 ^ 24) messages
      → AreShort v payloads
      → AreFilled payloads
      → t.incoming ≡ records v payloads ++ rest
      → t.handshake_buf ++ flatten payloads ≡ framed messages
      → flight_loop rounds f t ≡ ok (g, record t { handshake_buf = []; incoming = rest })
  unfolding flatten
  flight_loop-FlightRun zero f g messages payloads t rest (done _ body) enough fits short filled
        stream e =
      absurd (omega arith)
  flight_loop-FlightRun zero f g messages payloads t rest (then_message _ _ _ m ms a flight) enough
        fits short filled stream e =
      absurd (omega arith)
  flight_loop-FlightRun (suc rounds) f g messages payloads t rest (done _ body) enough fits short
        filled stream e =
      let r = recv_next v (server_hello_done, body) payloads t rest [] fits.0 short stream e in
      let filled' : AreFilled r.later =
        All-right (λ (p : List ℕ). 0 < length p) r.used r.later
          (subst AreFilled (sym r.split) filled) in
      let left = nothing_left r.buf r.later filled' r.joined in
      let t' : TlsTransport = record t {
        handshake_buf = r.buf;
        incoming = records v r.later ++ rest;
      } in
      flight_loop_done rounds f t t' body
        (recv_step v t payloads rest [] (received (server_hello_done, body)) r)
      ∙ rw (left.0, left.1) refl
  flight_loop-FlightRun (suc rounds) f g messages payloads t rest
        (then_message _ next _ m ms a flight) enough fits short filled stream e =
      let r = recv_next v m payloads t rest (framed ms) fits.0 short stream e in
      let filled' : AreFilled r.later =
        All-right (λ (p : List ℕ). 0 < length p) r.used r.later
          (subst AreFilled (sym r.split) filled) in
      let t' : TlsTransport = record t {
        handshake_buf = r.buf;
        incoming = records v r.later ++ rest;
      } in
      flight_loop_next rounds f next t t' m a
        (recv_step v t payloads rest (framed ms) (received m) r)
      ∙ flight_loop-FlightRun rounds next g ms r.later t' rest flight (omega arith) fits.1 r.short
          filled' refl r.joined

  length-framed :
      (messages : List (HandshakeType × List ℕ)) → length messages ≤ length (framed messages)
  unfolding frame_handshake
  length-framed [] = omega arith
  length-framed (m ∷ messages) =
      omega
        (arith, length-framed messages, length-append (frame_handshake m.0 m.1) (framed messages))

  length-flatten :
      (payloads : List (List ℕ)) → length (flatten payloads) ≤ length (records v payloads)
  unfolding flatten encode_record
  length-flatten [] = omega arith
  length-flatten (p ∷ payloads) = omega (
    arith,
    length-flatten payloads,
    length-append p (flatten payloads),
    length-append (encode_record handshake v p) (records v payloads),
  )

  -- The server's flight is taken whole, wherever the peer cut it into records: the messages before
  -- ServerHelloDone in any order, what they leave in the client's state and the leaf, nothing
  -- buffered behind them, and the stream left where the flight ends. No record of the flight is
  -- empty, each message and each record fits its length field, and the rounds of the loop are enough.
  pub read_server_flight-FlightRun :
      (hs : ClientHandshake) (g : FlightState) (messages : List (HandshakeType × List ℕ))
      (payloads : List (List ℕ)) (t : TlsTransport) (rest : List ℕ)
      → FlightRun (record { hs = hs; leaf = none; random = none }) messages g
      → All (λ m. length m.1 < 2 ^ 24) messages
      → AreShort v payloads
      → AreFilled payloads
      → t.incoming ≡ records v payloads ++ rest
      → t.handshake_buf ++ flatten payloads ≡ framed messages
      → read_server_flight hs t ≡ ok (g, record t { handshake_buf = []; incoming = rest })
  unfolding read_server_flight
  read_server_flight-FlightRun hs g messages payloads t rest flight fits short filled stream e =
      flight_loop-FlightRun (suc (length t.incoming + length t.handshake_buf))
        (record { hs = hs; leaf = none; random = none }) g messages payloads t rest flight
        (omega (
          arith,
          length-framed messages,
          ap length e,
          ap length stream,
          length-append t.handshake_buf (flatten payloads),
          length-append (records v payloads) rest,
          length-flatten payloads,
        ))
        fits short filled stream e
