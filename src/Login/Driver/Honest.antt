-- ===== src/Login/Driver/Honest.antt =====
-- The login against a server that follows the protocol.
use crypto_kiddie.Prelude.{
  ℕ, ◌≡◌, refl, Option-cases, inl, inr, ok_injective, sym, ◌∙◌, List, [], ◌∷◌, Option, none, some,
  ok, err,
}
use crypto_kiddie.Tls.Types.{
  tls1_2, handshake, change_cipher_spec, certificate, client_key_exchange, certificate_verify,
  finished,
}
use crypto_kiddie.Tls.Transport.{TlsTransport, send_record}
use crypto_kiddie.Handshake.{push_message, finished_body}
use crypto_kiddie.KeyTransport.{build_client_key_exchange}
use crypto_kiddie.Prf
use crypto_kiddie.Prf.{key_block, client_finished_label, server_finished_label}
use crypto_kiddie.Record.{RecordCrypto, protect}
use crypto_kiddie.Client.{
  out_of_order, server_random_not_recorded, ClientHandshake, client_certificate,
  record_certificate_verify, certificate_verify_digest, client_record_crypto, frame,
}
use crypto_kiddie.Client.Steps.{exchanged, key_exchange_some, key_exchange_none, finished_some}
use crypto_kiddie.Login.Messages.{
  sign_failed, handshake_failed, LoginParams, send_handshake, signed_body,
}
use crypto_kiddie.Login.Driver.{KeyTransport, Flown, client_flight}

module _ (streebog256 : List ℕ → List ℕ) where
  -- The messages of the second flight and the states between them, one after the other.
  module _ (params : LoginParams) (signature : List ℕ → List ℕ) (key : KeyTransport)
      (hs : ClientHandshake) (random : List ℕ) where
    abbrev pub certified : ClientHandshake
    certified = (client_certificate hs params.client_cert_chain).0

    abbrev pub exchange_body : List ℕ
    exchange_body =
        build_client_key_exchange streebog256 key.kek certified.client_random random
          params.premaster (some key.ephemeral_spki_content)

    abbrev pub keyed : ClientHandshake
    keyed = exchanged streebog256 certified random key.kek params.premaster exchange_body

    abbrev pub verify_body : List ℕ
    verify_body = signed_body (signature (certificate_verify_digest streebog256 keyed))

    abbrev pub signed : ClientHandshake
    signed = (record_certificate_verify keyed verify_body).0

    abbrev pub secret : List ℕ
    secret = Prf.master_secret streebog256 params.premaster certified.client_random random

    abbrev pub client_verify_data : List ℕ
    client_verify_data = finished_body streebog256 secret client_finished_label signed.transcript

    abbrev pub client_keys : RecordCrypto
    client_keys = client_record_crypto (key_block streebog256 secret certified.client_random random)

    abbrev pub finished_record : RecordCrypto × List ℕ
    finished_record = protect client_keys handshake tls1_2 (frame finished client_verify_data)

    abbrev pub flown_state : ClientHandshake
    flown_state = record signed {
      transcript = (push_message signed.transcript finished client_verify_data).0;
      record_crypto = some finished_record.0;
    }

    abbrev pub flown_stream : TlsTransport → TlsTransport
    flown_stream t =
        let t1 = send_handshake t certificate (client_certificate hs params.client_cert_chain).1 in
        let t2 = send_handshake t1 client_key_exchange exchange_body in
        let t3 = send_handshake t2 certificate_verify verify_body in
        send_record (send_record t3 change_cipher_spec (0x01 ∷ [])) handshake finished_record.1

    certified_random : hs.server_random ≡ some random → certified.server_random ≡ some random
    unfolding client_certificate
    certified_random e = e

    pub signed_secret : signed.master_secret ≡ some secret
    unfolding record_certificate_verify exchanged
    signed_secret = refl

    signed_keys : signed.record_crypto ≡ some client_keys
    unfolding record_certificate_verify exchanged
    signed_keys = refl

    -- Where a server random is recorded and the token signs, the second flight succeeds: it sends
    -- the certificate, the key exchange, the signature over the transcript so far, the change of the
    -- cipher and the protected Finished, in this order, and it leaves the transcript with all four
    -- messages.
    pub client_flight_lem :
        (sign : List ℕ → Option (List ℕ)) (t : TlsTransport)
        → hs.server_random ≡ some random
        → sign (certificate_verify_digest streebog256 keyed)
          ≡ some (signature (certificate_verify_digest streebog256 keyed))
        → client_flight streebog256 params sign key hs t
          ≡ ok (record { hs = flown_state; stream = flown_stream t })
    unfolding client_flight
    client_flight_lem sign t e s =
        rw
          (
            key_exchange_some streebog256 certified random key.kek params.premaster
                (some key.ephemeral_spki_content) (certified_random e),
            s,
            finished_some streebog256 signed secret signed_secret,
            signed_keys,
          )
          refl

    client_flight_unsigned :
        (sign : List ℕ → Option (List ℕ)) (t : TlsTransport)
        → hs.server_random ≡ some random
        → sign (certificate_verify_digest streebog256 keyed) ≡ none
        → client_flight streebog256 params sign key hs t ≡ err sign_failed
    unfolding client_flight
    client_flight_unsigned sign t e s =
        rw
          (
            key_exchange_some streebog256 certified random key.kek params.premaster
                (some key.ephemeral_spki_content) (certified_random e),
            s,
          )
          refl

  module _ (params : LoginParams) (key : KeyTransport) (hs : ClientHandshake) where
    client_flight_early :
        (sign : List ℕ → Option (List ℕ)) (t : TlsTransport)
        → hs.server_random ≡ none
        → client_flight streebog256 params sign key hs t
          ≡ err (handshake_failed (out_of_order server_random_not_recorded))
    unfolding client_flight client_certificate
    client_flight_early sign t e =
        let early : (certified params (λ m. m) key hs []).server_random ≡ none = e in
        rw
          (key_exchange_none streebog256 (certified params (λ m. m) key hs []) key.kek
            params.premaster (some key.ephemeral_spki_content) early)
          refl

    -- A second flight that was sent had the server's random and the token's signature.
    pub record Sent (sign : List ℕ → Option (List ℕ)) (t : TlsTransport) (flown : Flown)
        : Type 0 where
      pub random : List ℕ
      pub signature : List ℕ
      pub recorded : hs.server_random ≡ some random
      pub signs :
          sign (certificate_verify_digest streebog256 (keyed params (λ m. signature) key hs random))
          ≡ some signature
      pub is : flown ≡ record {
        hs = flown_state params (λ m. signature) key hs random;
        stream = flown_stream params (λ m. signature) key hs random t;
      }

    pub client_flight-Sent :
        (sign : List ℕ → Option (List ℕ)) (t : TlsTransport) (flown : Flown)
        → client_flight streebog256 params sign key hs t ≡ ok flown
        → Sent sign t flown
    client_flight-Sent sign t flown e = elim (Option-cases hs.server_random) [
      | inl missing ↦ let early = client_flight_early sign t missing in absurd cc
      | inr (random, is) ↦
          elim (Option-cases
            (sign (certificate_verify_digest streebog256 (keyed params (λ m. []) key hs random)))) [
              | inl refused ↦
                  let failed =
                    client_flight_unsigned params (λ m. []) key hs random sign t is refused in
                  absurd cc
              | inr (signature, s) ↦ record {
                random = random;
                signature = signature;
                recorded = is;
                signs = s;
                is =
                    ok_injective
                      (sym e ∙ client_flight_lem params (λ m. signature) key hs random sign t is s);
              }
            ]
    ]
