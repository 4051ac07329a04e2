-- ===== src/Login/Driver/Finish.antt =====
-- The end of the login: what a session that was opened has checked.
use crypto_kiddie.Prelude.{
  ℕ, ◌+◌, ◌≤◌, ◌≡◌, sym, ap, ◌∙◌, arith, List, ◌||◌, not, ltb, ◌==◌, Bool-cases, Option-cases, inl,
  inr, some, length, take, drop, get_or, length-take, length-drop, ok, and_then-ok, ok_or-ok,
  ok_injective, map_err, map_err-ok, ok_or,
}
use crypto_kiddie.Tls.Types.{handshake, tls1_2, handshake_type_code, finished}
use crypto_kiddie.Record
use crypto_kiddie.Record.{RecordCrypto, unprotect, Unprotected}
use crypto_kiddie.Prf.{server_finished_label}
use crypto_kiddie.Handshake.{finished_body}
use crypto_kiddie.Client.{ClientHandshake, verify_server_finished}
use crypto_kiddie.Client.Verdict.{verify_server_finished_iff, no_verdict}
use crypto_kiddie.Login.Messages.{
  LoginSession, protocol, record_crypto_unavailable, handshake_failed,
}
use crypto_kiddie.Login.Driver.{
  settled, opened, server_verify_data, check_server_finished, check_payload, check_plain,
  finish_with,
}

settled-ok :
    (r : RecordCrypto × Unprotected) (rc : RecordCrypto) (plain : List ℕ)
    → settled r ≡ ok (rc, plain)
    → r ≡ (rc, Record.ok plain)
unfolding settled
settled-ok (rc', Record.ok p) rc plain h =
    ap
      (λ (x : RecordCrypto × List ℕ).
        let y : RecordCrypto × Unprotected = (x.0, Record.ok x.1) in y)
      (ok_injective h)
settled-ok (rc', Record.err e) rc plain h = absurd (cc)

opened_lem :
    (rc : RecordCrypto) (payload : List ℕ) {x : RecordCrypto × List ℕ}
    → opened rc handshake payload ≡ ok x
    → settled (unprotect rc handshake tls1_2 payload) ≡ ok x
unfolding opened
opened_lem rc payload h = h

opened-ok :
    (rc : RecordCrypto) (payload : List ℕ) (rc' : RecordCrypto) (plain : List ℕ)
    → opened rc handshake payload ≡ ok (rc', plain)
    → unprotect rc handshake tls1_2 payload ≡ (rc', Record.ok plain)
opened-ok rc payload rc' plain h =
    settled-ok (unprotect rc handshake tls1_2 payload) rc' plain (opened_lem rc payload h)

server_verify_data-ok :
    (plain vd : List ℕ)
    → server_verify_data plain ≡ ok vd
    → (vd ≡ take 12 (drop 4 plain)) × (length vd ≡ 12)
unfolding server_verify_data
server_verify_data-ok plain vd h =
    elim (Bool-cases
      (ltb (length plain) (4 + 12) || not (get_or plain 0 0 == handshake_type_code finished))) [
        | inl bad ↦ absurd (cc (rw bad at h))
        | inr good ↦
            let is : take 12 (drop 4 plain) ≡ vd = ok_injective (rw good at h) in
            let long : 16 ≤ length plain = ground (arith) in
            (
              sym is,
              ap length (sym is)
                  ∙ length-take 12 (drop 4 plain) (omega (arith, length-drop 4 plain)),
            )
      ]

module _ (streebog256 : List ℕ → List ℕ) where
  -- What the end of a login has established.
  pub record Checked (leaf : List ℕ) (hs : ClientHandshake) (payload : List ℕ)
      (session : LoginSession) : Type 0 where
    pub keys : RecordCrypto
    pub after : RecordCrypto
    pub secret : List ℕ
    pub plain : List ℕ
    pub had_keys : hs.record_crypto ≡ some keys
    pub had_secret : hs.master_secret ≡ some secret
    pub opens : unprotect keys handshake tls1_2 payload ≡ (after, Record.ok plain)
    pub agrees :
        take 12 (drop 4 plain)
        ≡ finished_body streebog256 secret server_finished_label hs.transcript
    pub result :
        session
        ≡ record { handshake = record hs { record_crypto = some after }; server_leaf_cert = leaf }

module _ (streebog256 : List ℕ → List ℕ) (size : (m : List ℕ) → length (streebog256 m) ≡ 32) where
  finish_with-ok :
      (leaf : List ℕ) (hs : ClientHandshake) (rc : RecordCrypto) (vd : List ℕ)
      (session : LoginSession)
      → finish_with streebog256 leaf hs rc vd ≡ ok session
      → (verify_server_finished streebog256 (record hs { record_crypto = some rc }) vd ≡ ok tt)
        × (session
            ≡ record { handshake = record hs { record_crypto = some rc }; server_leaf_cert = leaf })
  unfolding finish_with
  finish_with-ok leaf hs rc vd session h =
      let hs' = record hs { record_crypto = some rc } in
      let verdict = verify_server_finished streebog256 hs' vd in
      let (u, e, g) =
        and_then-ok (map_err handshake_failed verdict)
          (λ _. ok (record { handshake = hs'; server_leaf_cert = leaf })) session h in
      (map_err-ok handshake_failed verdict tt e, sym (ok_injective g))

  -- The verdict needs a master secret.
  verified :
      (hs : ClientHandshake) (rc : RecordCrypto) (vd : List ℕ)
      → verify_server_finished streebog256 (record hs { record_crypto = some rc }) vd ≡ ok tt
      → (ms : List ℕ) × (hs.master_secret ≡ some ms)
  verified hs rc vd h = elim (Option-cases hs.master_secret) [
    | inl missing ↦
        absurd (no_verdict streebog256 (record hs { record_crypto = some rc }) vd missing h)
    | inr found ↦ found
  ]

  -- A session is opened only by a server that knows the master secret: the payload of the server's
  -- last record carries a valid tag under the server's keys, and the twelve bytes in it are the
  -- verify data of the master secret over the client's whole transcript.
  pub check_server_finished-Checked :
      (leaf : List ℕ) (hs : ClientHandshake) (payload : List ℕ) (session : LoginSession)
      → check_server_finished streebog256 leaf hs payload ≡ ok session
      → Checked streebog256 leaf hs payload session
  check_server_finished-Checked leaf hs payload session h =
      let (keys, k, h1) =
        and_then-ok (ok_or (protocol record_crypto_unavailable) hs.record_crypto)
          (check_payload streebog256 leaf hs payload) session (unfold check_server_finished in h) in
      let (plain, p, h2) =
        and_then-ok (opened keys handshake payload) (check_plain streebog256 leaf hs) session
          (unfold check_payload in h1) in
      let (vd, d, h3) =
        and_then-ok (server_verify_data plain.1) (finish_with streebog256 leaf hs plain.0) session
          (unfold check_plain in h2) in
      let f = finish_with-ok leaf hs plain.0 vd session h3 in
      let v = server_verify_data-ok plain.1 vd d in
      let (ms, e) = verified hs plain.0 vd f.0 in
      record {
        keys = keys;
        after = plain.0;
        secret = ms;
        plain = plain.1;
        had_keys = ok_or-ok (protocol record_crypto_unavailable) hs.record_crypto keys k;
        had_secret = e;
        opens = opened-ok keys payload plain.0 plain.1 p;
        agrees =
            sym v.0
            ∙ sym (
                (verify_server_finished_iff streebog256 size
                    (record hs { record_crypto = some plain.0 }) ms vd e v.1).0
                  f.0);
        result = f.1;
      }
