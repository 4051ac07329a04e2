-- ===== src/Handshake.antt =====
-- src/gost_handshake.rs: framing, the transcript, the ClientHello and the Finished bodies.
use crypto_kiddie.Prelude.{
  ℕ, ◌*◌, List, [], ◌∷◌, ◌++◌, flatten, map, if◌then◌else◌, ltb, ◌==◌, Option, none, some, length,
  be_bytes,
}
use crypto_kiddie.Tls.Types.{ProtocolVersion, HandshakeType, handshake_type_code}
use crypto_kiddie.Prf.{finished_verify_data}

-- `len as u32` and its three low bytes are `be_bytes 3`.
unfoldable pub frame_handshake : HandshakeType → List ℕ → List ℕ
frame_handshake msg_type body = handshake_type_code msg_type ∷ (be_bytes 3 (length body) ++ body)

pub record Transcript : Type 0 where
  pub content : List ℕ

unfoldable pub new : Transcript
new = record { content = [] }

unfoldable pub push_framed : Transcript → List ℕ → Transcript
push_framed t framed = record { content = t.content ++ framed }

-- The transcript behind the message, and the framed bytes that are returned.
unfoldable pub push_message : Transcript → HandshakeType → List ℕ → Transcript × List ℕ
unfolding frame_handshake
push_message t msg_type body =
    let framed = frame_handshake msg_type body in (record { content = t.content ++ framed }, framed)

pub record ClientHelloParams : Type 0 where
  pub version : ProtocolVersion
  pub random : List ℕ
  pub session_id : List ℕ
  pub cipher_suites : List ℕ
  pub extensions : List ℕ

-- No result where the assertion on the session id fails.
unfoldable pub build_client_hello : ClientHelloParams → Option (List ℕ)
build_client_hello params =
    let extensions =
      if length params.extensions == 0
      then []
      else (be_bytes 2 (length params.extensions) ++ params.extensions) in
    let suites = flatten (map (be_bytes 2) params.cipher_suites) in
    if ltb 32 (length params.session_id)
    then none
    else some (
        params.version.major
        ∷ params.version.minor
        ∷ (params.random
            ++ ((length params.session_id ∷ params.session_id)
                ++ (be_bytes 2 (length params.cipher_suites * 2)
                    ++ (suites ++ (1 ∷ 0 ∷ extensions))))))

abbrev pub change_cipher_spec_payload : List ℕ
change_cipher_spec_payload = 1 ∷ []

unfoldable pub certificate_verify_body : List ℕ → List ℕ
certificate_verify_body signature = signature

module _ (streebog256 : List ℕ → List ℕ) where
  unfoldable pub hash : Transcript → List ℕ
  hash t = streebog256 t.content

  unfoldable pub finished_body : List ℕ → List ℕ → Transcript → List ℕ
  unfolding hash
  finished_body master_secret label t =
      finished_verify_data streebog256 master_secret label (hash t)
