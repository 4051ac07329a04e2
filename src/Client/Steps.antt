-- ===== src/Client/Steps.antt =====
-- The handshake as steps of the client, in whatever order the caller takes them.
use crypto_kiddie.Prelude.{
  ℕ, ◌≡◌, refl, sym, ap, ◌∙◌, subst, List, [], ◌∷◌, ◌++◌, append-nil, append_assoc, flatten, Option,
  none, some, ok, err, ok_injective, Option-cases, ◌↔◌, inl, inr,
}
use crypto_kiddie.Tls.Types.{
  HandshakeType, server_hello, certificate, client_key_exchange, certificate_verify, finished,
}
use crypto_kiddie.Handshake.{frame_handshake, push_message, finished_body}
use crypto_kiddie.KeyTransport.{build_client_key_exchange}
use crypto_kiddie.Prf
use crypto_kiddie.Prf.{key_block, client_finished_label}
use crypto_kiddie.Client.{
  ClientHandshake, record_server_hello, record_incoming, client_certificate, certificate_body,
  record_certificate_verify, client_key_exchange_step, client_finished, client_record_crypto,
  out_of_order, master_secret_not_derived, server_random_not_recorded,
}

module _ (streebog256 : List ℕ → List ℕ) where
  -- One call that succeeds, with the framed message that it adds to the transcript.
  pub data Step : ClientHandshake → List ℕ → ClientHandshake → Type 0 where
    hello_recorded :
        (hs : ClientHandshake) (random body : List ℕ)
        → Step hs (frame_handshake server_hello body) (record_server_hello hs random body)
    incoming_recorded :
        (hs : ClientHandshake) (t : HandshakeType) (body : List ℕ)
        → Step hs (frame_handshake t body) (record_incoming hs t body)
    certificate_made :
        (hs : ClientHandshake) (chain : List (List ℕ))
        → Step hs
            (frame_handshake certificate (certificate_body chain))
            (client_certificate hs chain).0
    verify_recorded :
        (hs : ClientHandshake) (signature : List ℕ)
        → Step hs
            (frame_handshake certificate_verify signature)
            (record_certificate_verify hs signature).0
    key_exchanged :
        (hs hs' : ClientHandshake) (kek premaster : List ℕ) (spki : Option (List ℕ)) (body : List ℕ)
        → client_key_exchange_step streebog256 hs kek premaster spki ≡ ok (hs', body)
        → Step hs (frame_handshake client_key_exchange body) hs'
    finished_made :
        (hs hs' : ClientHandshake) (vd : List ℕ)
        → client_finished streebog256 hs ≡ ok (hs', vd)
        → Step hs (frame_handshake finished vd) hs'

  pub data Run : ClientHandshake → List (List ℕ) → ClientHandshake → Type 0 where
    idle : (hs : ClientHandshake) → Run hs [] hs
    then_step :
        (hs hs' hs'' : ClientHandshake) (m : List ℕ) (ms : List (List ℕ))
        → Step hs m hs'
        → Run hs' ms hs''
        → Run hs (m ∷ ms) hs''

  -- What a key exchange with a recorded server random leaves, and its message.
  unfoldable pub exchanged : ClientHandshake → List ℕ → List ℕ → List ℕ → List ℕ → ClientHandshake
  unfolding push_message
  exchanged hs server_random kek premaster body =
      let ms = Prf.master_secret streebog256 premaster hs.client_random server_random in
      record hs {
        transcript = (push_message hs.transcript client_key_exchange body).0;
        master_secret = some ms;
        record_crypto =
            some (client_record_crypto (key_block streebog256 ms hs.client_random server_random));
      }

  pub key_exchange_some :
      (hs : ClientHandshake) (server_random kek premaster : List ℕ) (spki : Option (List ℕ))
      → hs.server_random ≡ some server_random
      → let body =
          build_client_key_exchange streebog256 kek hs.client_random server_random premaster spki in
        client_key_exchange_step streebog256 hs kek premaster spki
        ≡ ok (exchanged hs server_random kek premaster body, body)
  unfolding client_key_exchange_step exchanged
  key_exchange_some hs server_random kek premaster spki e = rw e refl

  pub key_exchange_none :
      (hs : ClientHandshake) (kek premaster : List ℕ) (spki : Option (List ℕ))
      → hs.server_random ≡ none
      → client_key_exchange_step streebog256 hs kek premaster spki
        ≡ err (out_of_order server_random_not_recorded)
  unfolding client_key_exchange_step
  key_exchange_none hs kek premaster spki e = rw e refl

  -- A key exchange that succeeds had a server random.
  pub record Exchange (hs hs' : ClientHandshake) (kek premaster body : List ℕ) : Type 0 where
    pub random : List ℕ
    pub recorded : hs.server_random ≡ some random
    pub state : hs' ≡ exchanged hs random kek premaster body

  pub exchange_lem :
      (hs hs' : ClientHandshake) (kek premaster : List ℕ) (spki : Option (List ℕ)) (body : List ℕ)
      → client_key_exchange_step streebog256 hs kek premaster spki ≡ ok (hs', body)
      → Exchange hs hs' kek premaster body
  exchange_lem hs hs' kek premaster spki body e = elim (Option-cases hs.server_random) [
    | inl missing ↦ let refused = key_exchange_none hs kek premaster spki missing in absurd cc
    | inr (random, is) ↦
        let same = ok_injective (sym e ∙ key_exchange_some hs random kek premaster spki is) in
        record {
          random = random;
          recorded = is;
          state =
              ap (λ (x : ClientHandshake × List ℕ). x.0) same
              ∙ ap (exchanged hs random kek premaster)
                  (sym (ap (λ (x : ClientHandshake × List ℕ). x.1) same));
        }
  ]

  pub finished_some :
      (hs : ClientHandshake) (ms : List ℕ)
      → hs.master_secret ≡ some ms
      → let vd = finished_body streebog256 ms client_finished_label hs.transcript in
        client_finished streebog256 hs
        ≡ ok (record hs { transcript = (push_message hs.transcript finished vd).0 }, vd)
  unfolding client_finished
  finished_some hs ms e = rw e refl

  finished_none :
      (hs : ClientHandshake)
      → hs.master_secret ≡ none
      → client_finished streebog256 hs ≡ err (out_of_order master_secret_not_derived)
  unfolding client_finished
  finished_none hs e = rw e refl

  abbrev finish : ClientHandshake → List ℕ → ClientHandshake
  finish hs vd = record hs { transcript = (push_message hs.transcript finished vd).0 }

  finished_lem :
      (hs hs' : ClientHandshake) (vd : List ℕ)
      → client_finished streebog256 hs ≡ ok (hs', vd)
      → hs' ≡ record hs { transcript = (push_message hs.transcript finished vd).0 }
  finished_lem hs hs' vd e = elim (Option-cases hs.master_secret) [
    | inl missing ↦ let refused = finished_none hs missing in absurd cc
    | inr (ms, is) ↦
        let same = ok_injective (sym e ∙ finished_some hs ms is) in
        ap (λ (x : ClientHandshake × List ℕ). x.0) same
        ∙ ap (λ (v : List ℕ). finish hs v) (sym (ap (λ (x : ClientHandshake × List ℕ). x.1) same))
  ]

  Step-transcript :
      (hs hs' : ClientHandshake) (m : List ℕ)
      → Step hs m hs'
      → hs'.transcript.content ≡ hs.transcript.content ++ m
  unfolding record_server_hello record_incoming client_certificate record_certificate_verify
      push_message exchanged
  Step-transcript hs hs' m (hello_recorded _ random body) = refl
  Step-transcript hs hs' m (incoming_recorded _ t body) = refl
  Step-transcript hs hs' m (certificate_made _ chain) = refl
  Step-transcript hs hs' m (verify_recorded _ signature) = refl
  Step-transcript hs hs' m (key_exchanged _ _ kek premaster spki body e) =
      ap (λ (h : ClientHandshake). h.transcript.content)
        (exchange_lem hs hs' kek premaster spki body e).state
  Step-transcript hs hs' m (finished_made _ _ vd e) =
      ap (λ (h : ClientHandshake). h.transcript.content) (finished_lem hs hs' vd e)

  -- The transcript is the messages of the run, framed, each once and in order: behind what it held
  -- before, in whatever order the steps were taken.
  pub Run-transcript :
      (hs hs' : ClientHandshake) (ms : List (List ℕ))
      → Run hs ms hs'
      → hs'.transcript.content ≡ hs.transcript.content ++ flatten ms
  unfolding flatten
  Run-transcript hs hs' ms (idle _) = sym (append-nil hs.transcript.content)
  Run-transcript hs hs' ms (then_step _ next _ m rest step run) =
      Run-transcript next hs' rest run
      ∙ ap (λ (t : List ℕ). t ++ flatten rest) (Step-transcript hs next m step)
      ∙ append_assoc hs.transcript.content m (flatten rest)

  -- The secrets are all there or all missing, and they need the server's random.
  pub record IsConsistent (hs : ClientHandshake) : Type 0 where
    pub together : (hs.master_secret ≡ none) ↔ (hs.record_crypto ≡ none)
    pub derived : hs.server_random ≡ none → hs.master_secret ≡ none

  exchanged-IsConsistent :
      (hs : ClientHandshake) (random kek premaster body : List ℕ)
      → hs.server_random ≡ some random
      → IsConsistent (exchanged hs random kek premaster body)
  unfolding exchanged
  exchanged-IsConsistent hs random kek premaster body e = record {
    together = ((λ a. absurd cc), λ a. absurd cc);
    derived = λ a. absurd cc;
  }

  Step-IsConsistent :
      (hs hs' : ClientHandshake) (m : List ℕ) → Step hs m hs' → IsConsistent hs → IsConsistent hs'
  unfolding record_server_hello record_incoming client_certificate record_certificate_verify
  Step-IsConsistent hs hs' m (hello_recorded _ random body) c = record {
    together = c.together;
    derived = λ e. absurd cc;
  }
  Step-IsConsistent hs hs' m (incoming_recorded _ t body) c = record {
    together = c.together;
    derived = c.derived;
  }
  Step-IsConsistent hs hs' m (certificate_made _ chain) c = record {
    together = c.together;
    derived = c.derived;
  }
  Step-IsConsistent hs hs' m (verify_recorded _ signature) c = record {
    together = c.together;
    derived = c.derived;
  }
  Step-IsConsistent hs hs' m (key_exchanged _ _ kek premaster spki body e) c =
      let x = exchange_lem hs hs' kek premaster spki body e in
      subst IsConsistent (sym x.state)
        (exchanged-IsConsistent hs x.random kek premaster body x.recorded)
  Step-IsConsistent hs hs' m (finished_made _ _ vd e) c =
      subst IsConsistent (sym (finished_lem hs hs' vd e))
        (record { together = c.together; derived = c.derived })

  -- Whatever the caller does in whatever order, the record keys exist exactly where the master
  -- secret does, and neither does before a server random is recorded.
  pub Run-IsConsistent :
      (hs hs' : ClientHandshake) (ms : List (List ℕ))
      → Run hs ms hs'
      → IsConsistent hs
      → IsConsistent hs'
  Run-IsConsistent hs hs' ms (idle _) c = c
  Run-IsConsistent hs hs' ms (then_step _ next _ m rest step run) c =
      Run-IsConsistent next hs' rest run (Step-IsConsistent hs next m step c)
