-- ===== src/Client/Agreement.antt =====
-- From the client's `ClientHello` to records that both ends understand.
use crypto_kiddie.Prelude.{
  ℕ, ◌≡◌, refl, sym, ap, ◌∙◌, subst, List, ◌++◌, flatten, map, Option, none, some, ok,
  some_injective,
}
use mathlib.Core.Option
use crypto_kiddie.Tls.Types.{ProtocolVersion, client_hello}
use crypto_kiddie.Handshake
use crypto_kiddie.Handshake.{frame_handshake, push_message, build_client_hello}
use crypto_kiddie.Prf
use crypto_kiddie.Prf.{KeyBlock, key_block}
use crypto_kiddie.Record
use crypto_kiddie.Record.{RecordCrypto}
use crypto_kiddie.Record.Session.{Event, sent, run, run-fresh}
use crypto_kiddie.Client.{ClientHandshake, start, client_key_exchange_step, client_record_crypto}
use crypto_kiddie.Client.Steps.{
  Run, Run-transcript, IsConsistent, Run-IsConsistent, exchange_lem, exchanged,
}

-- The server's end of the record layer, with its own writing keys first.
abbrev pub server_record_crypto : KeyBlock → RecordCrypto
server_record_crypto kb =
    Record.new kb.server_mac_key kb.server_enc_key kb.server_iv kb.client_mac_key kb.client_enc_key
      kb.client_iv

-- The client behind its ClientHello.
abbrev pub begun : ProtocolVersion → List ℕ → List ℕ → ClientHandshake
begun version client_random body = record {
  version = version;
  transcript = (push_message Handshake.new client_hello body).0;
  client_random = client_random;
  server_random = none;
  master_secret = none;
  record_crypto = none;
}

begun_of :
    (version : ProtocolVersion) (client_random : List ℕ) (made : Option (List ℕ))
    (hs : ClientHandshake) (body : List ℕ)
    → Option.map {B = ClientHandshake × List ℕ} (λ b. (begun version client_random b, b)) made
      ≡ some (hs, body)
    → hs ≡ begun version client_random body
begun_of version client_random none hs body e = absurd cc
begun_of version client_random (some b) hs body e =
    let same = some_injective e in
    sym (ap (λ (x : ClientHandshake × List ℕ). x.0) same)
    ∙ ap (begun version client_random) (ap (λ (x : ClientHandshake × List ℕ). x.1) same)

pub start_lem :
    (version : ProtocolVersion) (client_random session_id cipher_suites extensions : List ℕ)
    (hs : ClientHandshake) (body : List ℕ)
    → start version client_random session_id cipher_suites extensions ≡ some (hs, body)
    → hs ≡ begun version client_random body
unfolding start push_message Handshake.new
start_lem version client_random session_id cipher_suites extensions hs body e =
    begun_of version client_random _ hs body e

module _ (streebog256 : List ℕ → List ℕ) where
  -- However the caller goes on after `start`, the transcript is the `ClientHello` and then every
  -- message of the run, each framed, once and in order; and the record keys exist exactly where
  -- the master secret does, and neither before a server random is recorded.
  pub Run-start :
      (version : ProtocolVersion) (client_random session_id cipher_suites extensions : List ℕ)
      (hs hs' : ClientHandshake) (body : List ℕ) (ms : List (List ℕ))
      → start version client_random session_id cipher_suites extensions ≡ some (hs, body)
      → Run streebog256 hs ms hs'
      → (hs'.transcript.content ≡ frame_handshake client_hello body ++ flatten ms)
        × IsConsistent streebog256 hs'
  unfolding push_message Handshake.new
  Run-start version client_random session_id cipher_suites extensions hs hs' body ms e run =
      let is = start_lem version client_random session_id cipher_suites extensions hs body e in
      (
        Run-transcript streebog256 hs hs' ms run
            ∙ ap (λ (h : ClientHandshake). h.transcript.content ++ flatten ms) is,
        Run-IsConsistent streebog256 hs hs' ms run (
            subst (IsConsistent streebog256) (sym is)
              (record { together = ((λ a. refl), λ a. refl); derived = λ a. refl })),
      )

  -- After a key exchange that succeeds, the client's record keys and those of a server that derives
  -- its own from the same premaster secret and the two randoms carry every message of every
  -- interleaving of the two directions.
  pub key_exchange_agreement :
      (hs hs' : ClientHandshake) (kek premaster random : List ℕ) (spki : Option (List ℕ))
      (body : List ℕ) (client : RecordCrypto) (events : List Event)
      → hs.server_random ≡ some random
      → client_key_exchange_step streebog256 hs kek premaster spki ≡ ok (hs', body)
      → hs'.record_crypto ≡ some client
      → let ms = Prf.master_secret streebog256 premaster hs.client_random random in
        let server = server_record_crypto (key_block streebog256 ms hs.client_random random) in
        (run (record { client = client; server = server }) events).1
        ≡ map (λ x. Record.ok (sent x)) events
  unfolding exchanged client_record_crypto
  key_exchange_agreement hs hs' kek premaster random spki body client events r e c =
      let x = exchange_lem streebog256 hs hs' kek premaster spki body e in
      let same : x.random ≡ random = some_injective (sym x.recorded ∙ r) in
      let ms = Prf.master_secret streebog256 premaster hs.client_random random in
      let kb = key_block streebog256 ms hs.client_random random in
      let keys : client_record_crypto kb ≡ client = some_injective (
        sym
          (ap (λ (t : List ℕ). (exchanged streebog256 hs t kek premaster body).record_crypto) same)
        ∙ sym (ap (λ (h : ClientHandshake). h.record_crypto) x.state)
        ∙ c) in
      subst
        (λ (k : RecordCrypto).
          (run (record { client = k; server = server_record_crypto kb }) events).1
          ≡ map (λ y. Record.ok (sent y)) events)
        keys
        (run-fresh kb.client_mac_key kb.client_enc_key kb.client_iv kb.server_mac_key
          kb.server_enc_key kb.server_iv events).1
