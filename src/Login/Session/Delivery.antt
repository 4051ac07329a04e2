-- ===== src/Login/Session/Delivery.antt =====
-- `send_application_data` at one end and `recv_all_application_data` at the other.
use crypto_kiddie.Prelude.{
  ℕ, suc, ◌<◌, ◌≡◌, subst, ap, arith, List, [], ◌++◌, Option, some, length, length-append, ok,
}
use crypto_kiddie.Tls.Types.{ProtocolVersion}
use crypto_kiddie.Tls.Transport.{TlsTransport}
use crypto_kiddie.Record.{RecordCrypto}
use crypto_kiddie.Login.Messages.{LoginSession}
use crypto_kiddie.Login.Session.{
  chunk_loop, record_chunks, with_crypto, send_application_data, drain_application_data,
  recv_all_application_data,
}
use crypto_kiddie.Login.Session.Cutting.{flatten-record_chunks}
use crypto_kiddie.Login.Session.Exchange.{
  keys_behind, wire, closing, send_chunks-wire, Drained, drain-wire, length-wire,
}

module _ (v : ProtocolVersion) (a b : LoginSession) (rc peer : RecordCrypto) (t u : TlsTransport)
    (text : List ℕ) where
  send_lem :
      a.handshake.record_crypto ≡ some rc
      → a.handshake.version ≡ v
      → send_application_data a t text
        ≡ ok (
          with_crypto a (keys_behind v rc (record_chunks text)),
          record t { outgoing = t.outgoing ++ wire v rc (record_chunks text) },
        )
  unfolding send_application_data record_chunks chunk_loop
  send_lem k e = send_chunks-wire v a t rc _ _ k e

  recv_all-Drained :
      (close : Option (List ℕ))
      → b.handshake.record_crypto ≡ some peer
      → b.handshake.version ≡ v
      → peer.read ≡ rc.write
      → u.incoming ≡ wire v rc (record_chunks text) ++ closing v close
      → Drained v text (keys_behind v rc (record_chunks text)) (recv_all_application_data b u)
  unfolding recv_all_application_data
  recv_all-Drained close k e same stream =
      let chunks = record_chunks text in
      let cut = flatten-record_chunks text in
      let enough : length chunks < suc (length u.incoming) = omega (
        arith,
        ap length stream,
        length-wire v rc chunks,
        length-append (wire v rc chunks) (closing v close),
      ) in
      subst
        (λ (x : List ℕ).
          Drained v x (keys_behind v rc chunks)
            (drain_application_data (suc (length u.incoming)) b u []))
        cut.0
        (drain-wire v chunks (suc (length u.incoming)) b u peer rc [] close enough cut.1 k e same
          stream)

  -- A text that one session sends comes out whole at the other end, whatever its length: where the
  -- receiver reads in the state in which the sender writes and both have the same version, sending
  -- succeeds and appends the records to the stream; and where these records stand on the receiver's
  -- stream, with its end or an alert in the clear behind them, it receives the text, and reads
  -- afterwards where the sender writes.
  pub recv_all-send_application_data :
      (close : Option (List ℕ))
      → a.handshake.record_crypto ≡ some rc
      → b.handshake.record_crypto ≡ some peer
      → a.handshake.version ≡ v
      → b.handshake.version ≡ v
      → peer.read ≡ rc.write
      → u.incoming ≡ wire v rc (record_chunks text) ++ closing v close
      → (send_application_data a t text
          ≡ ok (
            with_crypto a (keys_behind v rc (record_chunks text)),
            record t { outgoing = t.outgoing ++ wire v rc (record_chunks text) },
          ))
        × Drained v text (keys_behind v rc (record_chunks text)) (recv_all_application_data b u)
  recv_all-send_application_data close ka kb ea eb same stream =
      (send_lem ka ea, recv_all-Drained close kb eb same stream)
