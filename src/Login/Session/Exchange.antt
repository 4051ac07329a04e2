-- ===== src/Login/Session/Exchange.antt =====
-- What one session sends and another one receives.
use crypto_kiddie.Prelude.{
  ℕ, zero, suc, ◌^◌, ◌≤◌, ◌<◌, ◌≡◌, refl, sym, ap, ◌∙◌, arith, List, [], ◌∷◌, ◌++◌, append_assoc,
  append-nil, flatten, Option, none, some, length, length-append, take, Result, ok,
}
use crypto_kiddie.Tls.Types.{alert, application_data, ProtocolVersion, tls1_2}
use crypto_kiddie.Tls.Wire.{encode_record}
use crypto_kiddie.Tls.Transport.{TlsTransport, send_record, read_record}
use crypto_kiddie.Record.{RecordCrypto, protect}
use crypto_kiddie.Record.RoundTrip.{unprotect-protect, length-protect}
use crypto_kiddie.Login.Messages.{LoginError, LoginSession}
use crypto_kiddie.Login.Driver.{recv_record, settled}
use crypto_kiddie.Login.Driver.Reply.{recv_record-encode_record}
use crypto_kiddie.Login.Session.Cutting.{AreRecords}
use crypto_kiddie.Login.Session.{
  with_crypto, send_chunk, send_chunks, open_payload, drain_application_data,
}

take_two : (xs : List ℕ) → length (take 2 xs) ≤ 2
take_two [] = omega arith
take_two (x ∷ []) = omega arith
take_two (x ∷ y ∷ xs) = omega arith

module _ (v : ProtocolVersion) where
  -- The keys behind the records of the chunks, and the records.
  abbrev pub keys_behind : RecordCrypto → List (List ℕ) → RecordCrypto
  keys_behind rc [] = rc
  keys_behind rc (c ∷ chunks) = keys_behind (protect rc application_data v c).0 chunks

  abbrev pub wire : RecordCrypto → List (List ℕ) → List ℕ
  wire rc [] = []
  wire rc (c ∷ chunks) =
      encode_record application_data tls1_2 (protect rc application_data v c).1
      ++ wire (protect rc application_data v c).0 chunks

  send_chunk_lem :
      (s : LoginSession) (t : TlsTransport) (rc : RecordCrypto) (c : List ℕ)
      → s.handshake.record_crypto ≡ some rc
      → s.handshake.version ≡ v
      → send_chunk s t c
        ≡ ok (
          with_crypto s (protect rc application_data v c).0,
          record t {
            outgoing =
                t.outgoing
                ++ encode_record application_data tls1_2 (protect rc application_data v c).1;
          },
        )
  unfolding send_chunk send_record
  send_chunk_lem s t rc c k e = rw (k, e) refl

  pub send_chunks-wire :
      (s : LoginSession) (t : TlsTransport) (rc : RecordCrypto) (c : List ℕ)
      (chunks : List (List ℕ))
      → s.handshake.record_crypto ≡ some rc
      → s.handshake.version ≡ v
      → send_chunks s t (c ∷ chunks)
        ≡ ok (
          with_crypto s (keys_behind rc (c ∷ chunks)),
          record t { outgoing = t.outgoing ++ wire rc (c ∷ chunks) },
        )
  unfolding send_chunks
  send_chunks-wire s t rc c [] k e =
      rw
        (
          send_chunk_lem s t rc c k e,
          append-nil (encode_record application_data tls1_2 (protect rc application_data v c).1),
        )
        refl
  send_chunks-wire s t rc c (d ∷ chunks) k e =
      let rc' = (protect rc application_data v c).0 in
      let first = encode_record application_data tls1_2 (protect rc application_data v c).1 in
      let t' : TlsTransport = record t { outgoing = t.outgoing ++ first } in
      rw (send_chunk_lem s t rc c k e, send_chunks-wire (with_crypto s rc') t' rc' d chunks refl e)
        (ap
          (λ (x : List ℕ).
            let r : Result LoginError (LoginSession × TlsTransport) =
              ok (with_crypto s (keys_behind rc (c ∷ d ∷ chunks)), record t { outgoing = x }) in
            r)
          (append_assoc t.outgoing first (wire rc' (d ∷ chunks))))

  open_payload-protect :
      (s : LoginSession) (rc server : RecordCrypto) (c : List ℕ)
      → s.handshake.record_crypto ≡ some rc
      → s.handshake.version ≡ v
      → rc.read ≡ server.write
      → open_payload s (protect server application_data v c).1
        ≡ ok (with_crypto s (record rc { read = (protect server application_data v c).0.write }), c)
  unfolding open_payload settled
  open_payload-protect s rc server c k e same =
      rw (k, e, unprotect-protect application_data v server rc c same) refl

  -- What ends the stream behind the records: its end, or an alert in the clear.
  abbrev pub closing : Option (List ℕ) → List ℕ
  closing none = []
  closing (some body) = encode_record alert tls1_2 (take 2 body)

  drain_closing :
      (rounds : ℕ) (s : LoginSession) (t : TlsTransport) (out : List ℕ) (close : Option (List ℕ))
      → t.incoming ≡ closing close
      → drain_application_data (suc rounds) s t out ≡ ok (s, out)
  unfolding drain_application_data recv_record read_record
  drain_closing rounds s t out none e = rw (drain_application_data, e) refl
  drain_closing rounds s t out (some body) e =
      rw
        (
          drain_application_data,
          recv_record-encode_record alert tls1_2 (take 2 body) [] t
              (e ∙ sym (append-nil (encode_record alert tls1_2 (take 2 body))))
              (omega (arith, take_two body)),
        )
        refl

  drain_next :
      (rounds : ℕ) (s s' : LoginSession) (t : TlsTransport) (out payload plain rest : List ℕ)
      → t.incoming ≡ encode_record application_data tls1_2 payload ++ rest
      → length payload < 2 ^ 16
      → open_payload s payload ≡ ok (s', plain)
      → drain_application_data (suc rounds) s t out
        ≡ drain_application_data rounds s' (record t { incoming = rest }) (out ++ plain)
  unfolding drain_application_data
  drain_next rounds s s' t out payload plain rest e h opens =
      rw
        (
          drain_application_data,
          recv_record-encode_record application_data tls1_2 payload rest t e h,
          opens,
        )
        refl

  -- The receiver has read everything and reads where the sender writes.
  pub record Drained (text : List ℕ) (sender : RecordCrypto)
      (got : Result LoginError (LoginSession × List ℕ)) : Type 0 where
    pub session : LoginSession
    pub keys : RecordCrypto
    pub outcome : got ≡ ok (session, text)
    pub has_keys : session.handshake.record_crypto ≡ some keys
    pub in_step : keys.read ≡ sender.write

  pub drain-wire :
      (chunks : List (List ℕ)) (rounds : ℕ) (s : LoginSession) (t : TlsTransport)
      (rc server : RecordCrypto) (out : List ℕ) (close : Option (List ℕ))
      → length chunks < rounds
      → AreRecords chunks
      → s.handshake.record_crypto ≡ some rc
      → s.handshake.version ≡ v
      → rc.read ≡ server.write
      → t.incoming ≡ wire server chunks ++ closing close
      → Drained
          (out ++ flatten chunks)
          (keys_behind server chunks)
          (drain_application_data rounds s t out)
  unfolding flatten
  drain-wire chunks zero s t rc server out close enough short k e same stream = absurd (omega arith)
  drain-wire [] (suc rounds) s t rc server out close enough short k e same stream = record {
    session = s;
    keys = rc;
    outcome =
        drain_closing rounds s t out close stream
        ∙ ap (λ (x : List ℕ). let r : Result LoginError (LoginSession × List ℕ) = ok (s, x) in r)
            (sym (append-nil out));
    has_keys = k;
    in_step = same;
  }
  drain-wire (c ∷ chunks) (suc rounds) s t rc server out close enough short k e same stream =
      let sent = protect server application_data v c in
      let rc' : RecordCrypto = record rc { read = sent.0.write } in
      let rest = wire sent.0 chunks ++ closing close in
      let later =
        drain-wire chunks rounds (with_crypto s rc') (record t { incoming = rest }) rc' sent.0
          (out ++ c) close (omega arith) short.1 refl e refl refl in
      record {
        session = later.session;
        keys = later.keys;
        outcome =
            drain_next rounds s (with_crypto s rc') t out sent.1 c rest
              (stream
                ∙ append_assoc (encode_record application_data tls1_2 sent.1) (wire sent.0 chunks)
                    (closing close))
              (omega (arith, length-protect application_data v server c, short.0))
              (open_payload-protect s rc server c k e same)
            ∙ later.outcome
            ∙ ap
                (λ (x : List ℕ).
                  let r : Result LoginError (LoginSession × List ℕ) = ok (later.session, x) in r)
                (append_assoc out c (flatten chunks));
        has_keys = later.has_keys;
        in_step = later.in_step;
      }

  pub length-wire :
      (rc : RecordCrypto) (chunks : List (List ℕ)) → length chunks ≤ length (wire rc chunks)
  unfolding encode_record
  length-wire rc [] = omega arith
  length-wire rc (c ∷ chunks) =
      let sent = protect rc application_data v c in
      omega (
        arith,
        length-wire sent.0 chunks,
        length-append (encode_record application_data tls1_2 sent.1) (wire sent.0 chunks),
      )
