-- ===== src/Tests/HandshakeRuns.antt =====
-- The handshake's secrets, messages and driver at concrete inputs. A function of 32 bytes stands for
-- the hash.
use crypto_kiddie.Prelude.{
  ℕ, ◌+◌, ◌≡◌, ◌↔◌, refl, arith, List, [], ◌∷◌, ◌++◌, flatten, map, none, some, length, take,
  replicate, le_bytes, le_value, length-le_bytes, ok,
}
use crypto_kiddie.Tls.Types.{tls1_2, application_data, client_hello, server_hello}
use crypto_kiddie.Handshake.{frame_handshake, finished_body}
use crypto_kiddie.Prf
use crypto_kiddie.Prf.{p_hash, prf, key_block, server_finished_label, hmac_streebog256}
use crypto_kiddie.Prf.Stream.{p_hash-stream, stream}
use crypto_kiddie.Prf.Secrets.{key_block_parts, joined}
use crypto_kiddie.Record
use crypto_kiddie.Record.Session.{Event, from_client, from_server, sent, run}
use crypto_kiddie.Der.{der_tlv, der_peek, der_oid, der_len}
use crypto_kiddie.Der.RoundTrip.{der_peek-der_tlv}
use crypto_kiddie.KeyTransport.{param_z_oid}
use crypto_kiddie.Client.{
  ClientHandshake, start, verify_server_finished, record_server_hello, client_record_crypto,
}
use crypto_kiddie.Client.Steps.{
  idle, then_step, hello_recorded, IsConsistent, exchanged, key_exchange_some,
}
use crypto_kiddie.Client.Agreement.{server_record_crypto, Run-start, key_exchange_agreement}
use crypto_kiddie.Client.Verdict.{verify_server_finished_iff}

abbrev toy_hash : List ℕ → List ℕ
toy_hash m = le_bytes 32 (le_value m)

toy_hash-size : (m : List ℕ) → length (toy_hash m) ≡ 32
toy_hash-size m = length-le_bytes 32 (le_value m)

abbrev secret : List ℕ
secret = 1 ∷ 2 ∷ 3 ∷ []

abbrev seed : List ℕ
seed = 7 ∷ 8 ∷ []

p_hash-stream_example : p_hash toy_hash secret seed 40 ≡ take 40 (stream toy_hash secret seed 0 2)
p_hash-stream_example = p_hash-stream toy_hash secret seed toy_hash-size 2 40 (omega arith)

key_block_parts_example :
    joined (key_block toy_hash secret (4 ∷ []) (5 ∷ []))
    ≡ prf toy_hash secret Prf.key_expansion_label (5 ∷ 4 ∷ []) 144
key_block_parts_example = key_block_parts toy_hash toy_hash-size secret (4 ∷ []) (5 ∷ [])

-- The bytes of src/gost_keytransport.rs for the parameter set Z.
param_z_kat :
    der_oid param_z_oid
    ≡ 0x06 ∷ 0x09 ∷ 0x2A ∷ 0x85 ∷ 0x03 ∷ 0x07 ∷ 0x01 ∷ 0x02 ∷ 0x05 ∷ 0x01 ∷ 0x01 ∷ []
unfolding der_oid flatten
param_z_kat = refl

der_len_kat : der_len 300 ≡ 0x82 ∷ 0x01 ∷ 0x2C ∷ []
unfolding der_len
der_len_kat = refl

der_peek-der_tlv_example :
    der_peek ((1 ∷ 2 ∷ []) ++ (der_tlv 0x04 (replicate 200 7) ++ (9 ∷ []))) 2
    ≡ ok (record {
      tag = 0x04;
      content = replicate 200 7;
      next = 2 + length (der_tlv 0x04 (replicate 200 7));
    })
der_peek-der_tlv_example =
    der_peek-der_tlv (1 ∷ 2 ∷ []) (replicate 200 7) (9 ∷ []) 0x04 (omega arith)

abbrev hs : ClientHandshake
hs = record {
  version = tls1_2;
  transcript = record { content = 1 ∷ 2 ∷ [] };
  client_random = 4 ∷ [];
  server_random = some (5 ∷ []);
  master_secret = some secret;
  record_crypto = none;
}

verify_server_finished_iff_example :
    (verify_server_finished toy_hash hs (replicate 12 0) ≡ ok tt)
    ↔ (finished_body toy_hash secret server_finished_label hs.transcript ≡ replicate 12 0)
verify_server_finished_iff_example =
    verify_server_finished_iff toy_hash toy_hash-size hs secret (replicate 12 0) refl refl

abbrev events : List Event
events =
    from_client (record { content_type = application_data; version = tls1_2; fragment = 1 ∷ [] })
    ∷ from_server
        (record { content_type = application_data; version = tls1_2; fragment = 2 ∷ 3 ∷ [] })
    ∷ []

key_exchange_agreement_example :
    let ms = Prf.master_secret toy_hash (6 ∷ []) (4 ∷ []) (5 ∷ []) in
    let kb = key_block toy_hash ms (4 ∷ []) (5 ∷ []) in
    (run (record { client = client_record_crypto kb; server = server_record_crypto kb }) events).1
    ≡ map (λ x. Record.ok (sent x)) events
unfolding exchanged
key_exchange_agreement_example =
    key_exchange_agreement toy_hash hs _ secret (6 ∷ []) (5 ∷ []) none _ _ events refl
      (key_exchange_some toy_hash hs (5 ∷ []) secret (6 ∷ []) none refl) refl

abbrev hello_body : List ℕ
hello_body = 3 ∷ 3 ∷ 4 ∷ 0 ∷ 0 ∷ 2 ∷ 0xFF ∷ 0x85 ∷ 1 ∷ 0 ∷ []

abbrev begun : ClientHandshake
begun = record {
  version = tls1_2;
  transcript = record { content = frame_handshake client_hello hello_body };
  client_random = 4 ∷ [];
  server_random = none;
  master_secret = none;
  record_crypto = none;
}

start_run : start tls1_2 (4 ∷ []) [] (0xFF85 ∷ []) [] ≡ some (begun, hello_body)
unfolding start flatten frame_handshake
start_run = refl

abbrev met : ClientHandshake
met = record_server_hello begun (5 ∷ []) (6 ∷ [])

Run-start_example :
    (met.transcript.content
      ≡ frame_handshake client_hello hello_body
        ++ flatten (frame_handshake server_hello (6 ∷ []) ∷ []))
    × IsConsistent toy_hash met
Run-start_example =
    Run-start toy_hash tls1_2 (4 ∷ []) [] (0xFF85 ∷ []) [] begun met hello_body
      (frame_handshake server_hello (6 ∷ []) ∷ []) start_run
      (then_step begun met met _ [] (hello_recorded begun (5 ∷ []) (6 ∷ [])) (idle met))
