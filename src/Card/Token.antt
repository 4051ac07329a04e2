-- ===== src/Card/Token.antt =====
-- src/lib.rs: what the program does with the token, command by command. The device is an argument:
-- a state and what it answers. The log has every command that was sent, the last one first.
pub mod Header
pub mod Extraction
pub mod Pin
pub mod Scan
pub mod Search
pub mod Signing
use crypto_kiddie.Prelude.{
  ℕ, zero, suc, ◌+◌, ◌*◌, ◌/◌, ◌-◌, bit_and, bit_or, List, [], ◌∷◌, ◌++◌, Bool, true, false, ◌||◌,
  ◌&&◌, not, if◌then◌else◌, ltb, leb, ◌==◌, Option, none, some, length, take, drop, get_or, range,
  map, flatten, Result, ok, err,
}
use crypto_kiddie.Card.Apdu.{CommandApdu, ResponseApdu, is_success, CardError}
use crypto_kiddie.Card.Rutoken
use crypto_kiddie.Card.Rutoken.{
  select_master_file, private_key_file_select_sequences, certificate_file_select_sequences,
  verify_pin, verify_pin_status, logout, manage_security_environment_for_signing,
  pso_compute_digital_signature, manage_security_environment_for_vko_with_ukm, pso_key_agreement,
  pubkey_to_token_point, read_binary, signature_from_token, select_file_by_id,
}

pub data DigestAlgorithm : Type 0 where
  gost3411_2012_256 gost3411_2012_512 sha256 sha384 sha512 : DigestAlgorithm

pub data TokenError (F : Type 0) : Type 0 where
  device : F → TokenError F
  status : CommandApdu → ResponseApdu → TokenError F
  no_sequence no_certificate unsupported_digest bad_signature_length : TokenError F
  card : CardError → TokenError F

-- `der_sequence_total_len`
unfoldable pub fold_len : ℕ → List ℕ → ℕ
fold_len len [] = len
fold_len len (b ∷ bs) = fold_len (len * 256 + b) bs

unfoldable pub der_sequence_total_len : List ℕ → Option ℕ
unfolding fold_len
der_sequence_total_len bytes =
    let len_byte = get_or bytes 1 0 in
    let len_len = bit_and len_byte 0x7f in
    if ltb (length bytes) 2 || not (get_or bytes 0 0 == 0x30)
    then none
    else (if bit_and len_byte 0x80 == 0
        then some (2 + len_byte)
        else (if ((len_len == 0) || ltb 4 len_len) || ltb (length bytes) (2 + len_len)
            then none
            else some (2 + len_len + fold_len 0 (take len_len (drop 2 bytes)))))

-- The loop from `start` on, over what is left of the bytes.
unfoldable pub extract_first_der_certificate : List ℕ → Option (List ℕ)
unfolding der_sequence_total_len
extract_first_der_certificate [] = none
extract_first_der_certificate (b ∷ bytes) = elim (der_sequence_total_len (b ∷ bytes)) [
  | none ↦ extract_first_der_certificate bytes
  | some total_len ↦ elim (leb total_len (length (b ∷ bytes))) [
    | true ↦ some (take total_len (b ∷ bytes))
    | false ↦ extract_first_der_certificate bytes
  ]
]

module _ {D F : Type 0} (answer : D → CommandApdu → Result F ResponseApdu × D) where
  pub record Token : Type 0 where
    pub state : D
    pub log : List CommandApdu

  abbrev pub Io : Type 0 → Type 0
  Io A = Token → Result (TokenError F) A × Token

  module _ {A B : Type 0} where
    abbrev pub continue_with :
        Result (TokenError F) A × Token → (A → Io B) → Result (TokenError F) B × Token
    continue_with (ok a, t) k = k a t
    continue_with (err e, t) k = (err e, t)

  abbrev pub as_answer :
      Result F ResponseApdu × D → List CommandApdu → Result (TokenError F) ResponseApdu × Token
  as_answer (ok r, d) log = (ok r, record { state = d; log = log })
  as_answer (err e, d) log = (err (device e), record { state = d; log = log })

  unfoldable pub transmit : CommandApdu → Io ResponseApdu
  transmit apdu t = as_answer (answer t.state apdu) (apdu ∷ t.log)

  -- A command whose failure ends the operation.
  unfoldable pub succeed : CommandApdu → Io ResponseApdu
  unfolding transmit is_success
  succeed apdu t =
      continue_with (transmit apdu t)
        (λ resp t1. if is_success resp then (ok resp, t1) else (err (status apdu resp), t1))

  -- The end of `verify_pin_if_present`.
  unfoldable pub judge_pin : ResponseApdu → Io Unit
  unfolding transmit is_success
  judge_pin resp t =
      if is_success resp
      then (ok tt, t)
      else (if (resp.sw1 == 0x63) && (resp.sw2 == 0x00)
          then continue_with (transmit verify_pin_status t)
              (λ counted t1. (err (status verify_pin_status counted), t1))
          else (err (status verify_pin_status resp), t))

  unfoldable pub verify_pin_if_present : Option (List ℕ) → Io Unit
  unfolding transmit succeed judge_pin verify_pin logout
  verify_pin_if_present none t = (ok tt, t)
  verify_pin_if_present (some pin) t = continue_with (transmit (verify_pin pin) t) (λ resp t1.
      if (resp.sw1 == 0x6F) && (resp.sw2 == 0x86)
      then continue_with (succeed logout t1)
          (λ _ t2. continue_with (transmit (verify_pin pin) t2) judge_pin)
      else judge_pin resp t1)

  -- The inner loop of the selections: whether every command of a sequence succeeds.
  unfoldable pub select_along : List CommandApdu → Io Bool
  unfolding transmit is_success
  select_along [] t = (ok true, t)
  select_along (apdu ∷ commands) t = continue_with (transmit apdu t) (λ resp t1.
      elim (is_success resp) [ true ↦ select_along commands t1 | false ↦ (ok false, t1) ])

  -- `select_private_key_file` and `select_certificate_file` of the driver, which try the sequences
  -- of the key in turn.
  unfoldable pub select_by_sequences : List (List CommandApdu) → Io Unit
  unfolding succeed select_along
  select_by_sequences [] t = (err no_sequence, t)
  select_by_sequences (sequence ∷ sequences) t =
      continue_with (succeed select_master_file t) (λ _ t1.
        continue_with (select_along sequence t1) (λ selected t2. elim selected [
          | true ↦ (ok tt, t2)
          | false ↦ select_by_sequences sequences t2
        ]))

  -- The loop over READ BINARY. A round that goes on reads 256 bytes at least, so that 65 rounds are
  -- enough for 16 KiB.
  unfoldable pub read_loop : ℕ → ℕ → List ℕ → Io (List ℕ)
  unfolding transmit read_binary is_success
  read_loop zero offset content t = (ok content, t)
  read_loop (suc rounds) offset content t = elim (ltb offset (16 * 1024)) [
    | false ↦ (ok content, t)
    | true ↦ continue_with (transmit (read_binary offset 0) t) (λ resp t1.
        elim (((resp.sw1 == 0x6B) || (resp.sw1 == 0x6A)) || (resp.sw1 == 0x67)) [
          | true ↦ (ok content, t1)
          | false ↦ elim ((resp.sw1 == 0x62) && (resp.sw2 == 0x82)) [
            | true ↦ (ok (content ++ resp.payload), t1)
            | false ↦ elim (is_success resp) [
              | false ↦ (err (status (read_binary offset 0) resp), t1)
              | true ↦ elim (ltb (length resp.payload) 256) [
                | true ↦ (ok (content ++ resp.payload), t1)
                | false ↦
                    read_loop rounds (offset + length resp.payload) (content ++ resp.payload) t1
              ]
            ]
          ]
        ])
  ]

  abbrev pub certificate_in : List ℕ → Io (List ℕ)
  certificate_in content t = elim (extract_first_der_certificate content) [
    | some certificate ↦ (ok certificate, t)
    | none ↦ (err no_certificate, t)
  ]

  unfoldable pub read_selected_certificate : Io (List ℕ)
  unfolding read_loop extract_first_der_certificate
  read_selected_certificate t = continue_with (read_loop 65 0 [] t) certificate_in

  unfoldable pub sign_digest_with : ℕ → List ℕ → Io (List ℕ)
  unfolding succeed pso_compute_digital_signature signature_from_token
  sign_digest_with signature_len digest t =
      continue_with (succeed (pso_compute_digital_signature digest signature_len) t) (λ resp t1.
        if length resp.payload == signature_len
        then (ok (signature_from_token resp.payload), t1)
        else (err bad_signature_length, t1))

  -- The length of the signature, or the error, by the algorithm.
  unfoldable pub sign_by_algorithm : DigestAlgorithm → List ℕ → Io (List ℕ)
  unfolding sign_digest_with
  sign_by_algorithm gost3411_2012_256 digest t = sign_digest_with 64 digest t
  sign_by_algorithm gost3411_2012_512 digest t = sign_digest_with 128 digest t
  sign_by_algorithm _ digest t = (err unsupported_digest, t)

  unfoldable pub sign_digest_direct : ℕ → Option (List ℕ) → DigestAlgorithm → List ℕ → Io (List ℕ)
  unfolding succeed verify_pin_if_present select_by_sequences sign_by_algorithm
      private_key_file_select_sequences manage_security_environment_for_signing
  sign_digest_direct key_id pin digest_algorithm digest t =
      continue_with (succeed select_master_file t) (λ _ t1.
        continue_with (verify_pin_if_present pin t1) (λ _ t2.
          continue_with (select_by_sequences (private_key_file_select_sequences key_id) t2) (λ _ t3.
            continue_with (succeed (manage_security_environment_for_signing key_id) t3)
              (λ _ t4. sign_by_algorithm digest_algorithm digest t4))))

  unfoldable pub derive_vko_direct : ℕ → Option (List ℕ) → List ℕ → ℕ → List ℕ → Io (List ℕ)
  unfolding succeed verify_pin_if_present select_by_sequences private_key_file_select_sequences
      manage_security_environment_for_vko_with_ukm pubkey_to_token_point pso_key_agreement
  derive_vko_direct key_id pin peer_public_xy algo ukm t =
      elim (pubkey_to_token_point peer_public_xy (length peer_public_xy / 2)) [
        | err e ↦ (err (card e), t)
        | ok token_point ↦ continue_with (succeed select_master_file t) (λ _ t1.
            continue_with (verify_pin_if_present pin t1) (λ _ t2.
              continue_with (select_by_sequences (private_key_file_select_sequences key_id) t2)
                (λ _ t3.
                  continue_with
                    (succeed (manage_security_environment_for_vko_with_ukm key_id algo ukm) t3)
                    (λ _ t4.
                      continue_with (succeed (pso_key_agreement token_point) t4)
                        (λ resp t5. (ok resp.payload, t5))))))
      ]
