-- ===== src/Record/Session.antt =====
-- A whole connection: records in both directions, in any order.
use crypto_kiddie.Prelude.{ℕ, ◌≡◌, refl, sym, ap, ap₂, ◌∙◌, List, [], ◌∷◌, map}
use crypto_kiddie.Tls.Types.{ContentType, ProtocolVersion}
use crypto_kiddie.Record.{RecordCrypto, Unprotected, ok, new, protect, unprotect}
use crypto_kiddie.Record.RoundTrip.{unprotect-protect}

pub record Message : Type 0 where
  pub content_type : ContentType
  pub version : ProtocolVersion
  pub fragment : List ℕ

-- One end protects a message and the other end unprotects the record at once.
pub data Event : Type 0 where
  from_client from_server : Message → Event

pub record Ends : Type 0 where
  pub client : RecordCrypto
  pub server : RecordCrypto

unfoldable pub deliver :
    RecordCrypto
    → RecordCrypto
    → Message
    → record { sender : RecordCrypto; receiver : RecordCrypto; result : Unprotected }
deliver sender receiver m =
    let (sender', payload) = protect sender m.content_type m.version m.fragment in
    let (receiver', result) = unprotect receiver m.content_type m.version payload in
    record { sender = sender'; receiver = receiver'; result = result }

unfoldable pub run : Ends → List Event → Ends × List Unprotected
unfolding deliver
run e [] = (e, [])
run e (from_client m ∷ events) =
    let d = deliver e.client e.server m in
    let (e', results) = run (record { client = d.sender; server = d.receiver }) events in
    (e', d.result ∷ results)
run e (from_server m ∷ events) =
    let d = deliver e.server e.client m in
    let (e', results) = run (record { client = d.receiver; server = d.sender }) events in
    (e', d.result ∷ results)

-- Each end reads in the state in which the other writes.
pub record InStep (e : Ends) : Type 0 where
  pub up : e.server.read ≡ e.client.write
  pub down : e.client.read ≡ e.server.write

abbrev pub sent : Event → List ℕ
sent (from_client m) = m.fragment
sent (from_server m) = m.fragment

deliver_lem :
    (sender receiver : RecordCrypto) (m : Message)
    → receiver.read ≡ sender.write
    → let d = deliver sender receiver m in
      (d.result ≡ ok m.fragment)
      × (d.receiver.read ≡ d.sender.write)
      × (d.sender.read ≡ sender.read)
      × (d.receiver.write ≡ receiver.write)
unfolding deliver protect
deliver_lem sender receiver m e =
    let back = unprotect-protect m.content_type m.version sender receiver m.fragment e in
    (
      ap (λ (r : RecordCrypto × Unprotected). r.1) back,
      ap (λ (r : RecordCrypto × Unprotected). r.0.read) back,
      refl,
      ap (λ (r : RecordCrypto × Unprotected). r.0.write) back,
    )

run_lem :
    (events : List Event) (e : Ends)
    → InStep e
    → InStep (run e events).0 × ((run e events).1 ≡ map (λ x. ok (sent x)) events)
unfolding run
run_lem [] e h = (h, refl)
run_lem (from_client m ∷ events) e h =
    let d = deliver_lem e.client e.server m h.up in
    let rest = run_lem events _ (record { up = d.1; down = d.2 ∙ h.down ∙ sym d.3 }) in
    (rest.0, ap₂ ◌∷◌ d.0 rest.1)
run_lem (from_server m ∷ events) e h =
    let d = deliver_lem e.server e.client m h.down in
    let rest = run_lem events _ (record { up = d.2 ∙ h.up ∙ sym d.3; down = d.1 }) in
    (rest.0, ap₂ ◌∷◌ d.0 rest.1)

-- The client's and the server's end of a fresh connection with one set of keys.
abbrev pub fresh : List ℕ → List ℕ → List ℕ → List ℕ → List ℕ → List ℕ → Ends
fresh client_mac client_enc client_iv server_mac server_enc server_iv = record {
  client = new client_mac client_enc client_iv server_mac server_enc server_iv;
  server = new server_mac server_enc server_iv client_mac client_enc client_iv;
}

-- On a fresh connection, every message of every interleaving of the two directions comes out as
-- it went in, and the two ends stay in step.
pub run-fresh :
    (client_mac client_enc client_iv server_mac server_enc server_iv : List ℕ) (events : List Event)
    → let e = fresh client_mac client_enc client_iv server_mac server_enc server_iv in
      InStep (run e events).0 × ((run e events).1 ≡ map (λ x. ok (sent x)) events)
unfolding new
run-fresh cm ce ci sm se si events = run_lem events _ (record { up = refl; down = refl })
