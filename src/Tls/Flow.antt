-- ===== src/Tls/Flow.antt =====
-- Every message of a stream, however the peer cut the stream into records.
use crypto_kiddie.Prelude.{
  ℕ, zero, suc, ◌^◌, ◌≤◌, ◌<◌, ◌≡◌, refl, sym, subst, ap, ◌∙◌, arith, List, [], ◌∷◌, ◌++◌, flatten,
  map, length, length-append, append_assoc, All, Result, ok, and_then,
}
use crypto_kiddie.Tls.Types.{ProtocolVersion, HandshakeType, handshake_type_code}
use crypto_kiddie.Tls.Wire.{TlsError, encode_record}
use crypto_kiddie.Tls.Transport.{recv_loop, TlsTransport, recv_handshake_message}
use crypto_kiddie.Tls.Reassembly.{records, AreShort, Received, recv_loop-Received}
use crypto_kiddie.Handshake.{frame_handshake}

-- A number of calls of `recv_handshake_message` in a row.
unfoldable pub receive_all : ℕ → TlsTransport → Result TlsError (List (ℕ × List ℕ))
receive_all zero t = ok []
receive_all (suc count) t =
    and_then (recv_handshake_message t)
      (λ got. and_then (receive_all count got.1) (λ rest. ok (got.0 ∷ rest)))

abbrev pub framed : List (HandshakeType × List ℕ) → List ℕ
framed [] = []
framed (m ∷ messages) = frame_handshake m.0 m.1 ++ framed messages

abbrev pub received : HandshakeType × List ℕ → ℕ × List ℕ
received m = (handshake_type_code m.0, m.1)

module _ (v : ProtocolVersion) where
  pub length-records : (payloads : List (List ℕ)) → length payloads ≤ length (records v payloads)
  unfolding flatten encode_record
  length-records [] = omega arith
  length-records (p ∷ payloads) =
      omega (arith, length-records payloads, length-append p (records v payloads))

  -- One call, where the framed message stands next in the buffer and the records.
  pub recv_next :
      (m : HandshakeType × List ℕ) (payloads : List (List ℕ)) (t : TlsTransport)
      (rest tail : List ℕ)
      → length m.1 < 2 ^ 24
      → AreShort v payloads
      → t.incoming ≡ records v payloads ++ rest
      → t.handshake_buf ++ flatten payloads ≡ frame_handshake m.0 m.1 ++ tail
      → Received v payloads rest tail
          (received m)
          (recv_loop (suc (length t.incoming)) t.handshake_buf t.incoming)
  recv_next m payloads t rest tail fits short stream e =
      let enough : length payloads < suc (length t.incoming) = omega (
        arith,
        ap length stream,
        length-append (records v payloads) rest,
        length-records payloads,
      ) in
      subst
        (λ (s : List ℕ).
          Received v payloads rest tail (received m)
            (recv_loop (suc (length t.incoming)) t.handshake_buf s))
        (sym stream)
        (recv_loop-Received v m.0 m.1 tail rest fits payloads (suc (length t.incoming))
          t.handshake_buf enough short e)

  pub recv_step :
      (t : TlsTransport) (payloads : List (List ℕ)) (rest tail : List ℕ) (m : ℕ × List ℕ)
      → (r : Received v payloads rest tail m
          (recv_loop (suc (length t.incoming)) t.handshake_buf t.incoming))
      → recv_handshake_message t
        ≡ ok (m, record t { handshake_buf = r.buf; incoming = records v r.later ++ rest })
  unfolding recv_handshake_message
  recv_step t payloads rest tail m r = rw r.outcome refl

  -- The messages that the peer framed one behind the other come out one by one, in order and
  -- byte for byte, with the numbers of their types: wherever the peer cut the bytes into records,
  -- whatever part of them is buffered already and whatever follows on the stream, where each body
  -- fits its length of three bytes and each record its length of two.
  pub receive_all-framed :
      (messages : List (HandshakeType × List ℕ)) (payloads : List (List ℕ)) (t : TlsTransport)
      (rest tail : List ℕ)
      → All (λ m. length m.1 < 2 ^ 24) messages
      → AreShort v payloads
      → t.incoming ≡ records v payloads ++ rest
      → t.handshake_buf ++ flatten payloads ≡ framed messages ++ tail
      → receive_all (length messages) t ≡ ok (map received messages)
  unfolding receive_all
  receive_all-framed [] payloads t rest tail fits short stream e = refl
  receive_all-framed (m ∷ messages) payloads t rest tail fits short stream e =
      let r =
        recv_next m payloads t rest (framed messages ++ tail) fits.0 short stream
          (e ∙ append_assoc (frame_handshake m.0 m.1) (framed messages) tail) in
      let next : TlsTransport = record t {
        handshake_buf = r.buf;
        incoming = records v r.later ++ rest;
      } in
      let later = receive_all-framed messages r.later next rest tail fits.1 r.short refl r.joined in
      rw (recv_step t payloads rest (framed messages ++ tail) (received m) r, later) refl
