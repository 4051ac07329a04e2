-- ===== src/Tests/RecordRuns.antt =====
-- Record protection: the known answer of RFC 9189, A.2.1, and the theorems at concrete inputs.
use crypto_kiddie.Prelude.{
  some, ℕ, ◌≡◌, ◌↔◌, refl, List, [], ◌∷◌, replicate, map, true, remainder, chunks_exact,
}
use crypto_kiddie.Keystream
use crypto_kiddie.Imit
use crypto_kiddie.Cipher.{encrypt_block_le, new_gost, imit_step}
use crypto_kiddie.Tls.Types.{application_data, handshake, tls1_2}
use crypto_kiddie.Record.{
  new, protect, unprotect, ok, err, bad_mac, constant_time_eq, RecordCrypto, maced_data,
}
use crypto_kiddie.Record.RoundTrip.{unprotect-protect, constant_time_eq_iff}
use crypto_kiddie.Record.Session.{
  Event, Message, from_client, from_server, fresh, run, InStep, sent, run-fresh,
}
use crypto_kiddie.Record.Tampering.{unprotect-ok_iff}
use crypto_kiddie.Record.Genuine.{unprotect_all_iff, unprotect_all, protect_all, other_end}
use crypto_kiddie.Tests.Samples.{sample_key, sample_iv, sample_block, kek, cek}

abbrev ff : List ℕ
ff = replicate 32 0xff

abbrev zeros : List ℕ
zeros = replicate 32 0

record_kat :
    (protect
      (new ff zeros (replicate 8 0) ff zeros (replicate 8 0))
      application_data
      tls1_2
      (replicate 7 0)).1
    ≡ 0x86 ∷ 0x71 ∷ 0xcd ∷ 0xbf ∷ 0x3c ∷ 0x1a ∷ 0xae ∷ 0x0f ∷ 0x62 ∷ 0x4b ∷ 0x04 ∷ []
unfolding protect new Keystream.apply Keystream.new Imit.finalize encrypt_block_le new_gost
    Imit.update remainder Imit.new maced_data Imit.imit_mix imit_step chunks_exact Imit.absorb_block
record_kat = refl

-- A client's and a server's end of one connection.
abbrev client : RecordCrypto
client = new sample_key kek sample_iv cek sample_key sample_block

abbrev server : RecordCrypto
server = new cek sample_key sample_block sample_key kek sample_iv

in_step : server.read ≡ client.write
unfolding new
in_step = refl

unprotect-protect_example :
    unprotect server application_data tls1_2 (protect client application_data tls1_2 sample_block).1
    ≡ (
      record server { read = (protect client application_data tls1_2 sample_block).0.write },
      ok sample_block,
    )
unprotect-protect_example =
    unprotect-protect application_data tls1_2 client server sample_block in_step

-- Two records up, one down between them.
abbrev events : List Event
events =
    from_client (record { content_type = handshake; version = tls1_2; fragment = sample_block })
    ∷ from_server (record { content_type = handshake; version = tls1_2; fragment = kek })
    ∷ from_client (record { content_type = application_data; version = tls1_2; fragment = [] })
    ∷ []

run-fresh_example :
    let e = fresh sample_key kek sample_iv cek sample_key sample_block in
    InStep (run e events).0 × ((run e events).1 ≡ map (λ x. ok (sent x)) events)
run-fresh_example = run-fresh sample_key kek sample_iv cek sample_key sample_block events

unprotect-ok_iff_example :
    ((unprotect server handshake tls1_2 kek).1 ≡ ok sample_block)
    ↔ (kek ≡ (protect (record server { write = server.read }) handshake tls1_2 sample_block).1)
unprotect-ok_iff_example = unprotect-ok_iff handshake tls1_2 server kek sample_block

abbrev forged : List ℕ
forged = 0 ∷ 0 ∷ 0 ∷ 0 ∷ []

forged_refused : (unprotect server handshake tls1_2 forged).1 ≡ err bad_mac
unfolding unprotect constant_time_eq protect new Keystream.apply Keystream.new Imit.finalize
    encrypt_block_le new_gost Imit.update remainder Imit.new maced_data Imit.imit_mix imit_step
    chunks_exact Imit.absorb_block
forged_refused = refl

-- Two records and the messages that they hold.
abbrev messages : List Message
messages =
    record { content_type = handshake; version = tls1_2; fragment = kek }
    ∷ record { content_type = application_data; version = tls1_2; fragment = sample_block }
    ∷ []

abbrev records : List Message
records = protect_all client messages

unprotect_all_iff_example :
    (unprotect_all server records ≡ some messages)
    ↔ (records ≡ protect_all (other_end server) messages)
unprotect_all_iff_example = unprotect_all_iff server records messages

constant_time_eq_iff_example :
    (constant_time_eq forged sample_block ≡ true) ↔ (forged ≡ sample_block)
constant_time_eq_iff_example = constant_time_eq_iff forged sample_block
