-- ===== src/Card/Token/Signing.antt =====
-- A whole signature of the token.
use crypto_kiddie.Prelude.{
  ℕ, ◌+◌, ◌≤◌, ◌≡◌, refl, arith, List, [], ◌∷◌, Bool, true, false, ◌==◌, if◌then◌else◌, Bool-cases,
  inl, inr, Option, Result, ok, err, length,
}
use crypto_kiddie.Card.Apdu.{CommandApdu, ResponseApdu, is_success, with_data, with_le, new}
use crypto_kiddie.Card.Rutoken.{
  select_master_file, private_key_file_select_sequences, manage_security_environment_for_signing,
  pso_compute_digital_signature, signature_from_token, select_private_key_file, select_file_by_path,
  select_file_by_id,
}
use crypto_kiddie.Card.Token.{
  DigestAlgorithm, gost3411_2012_256, gost3411_2012_512, sha256, sha384, sha512, TokenError,
  bad_signature_length, Token, Io, continue_with, transmit, succeed, verify_pin_if_present,
  select_along, select_by_sequences, sign_digest_with, sign_by_algorithm, sign_digest_direct,
}
use crypto_kiddie.Card.Token.Pin.{
  presents_pin, presented, continue_le, if_log, quiet_le, succeed_le, verify_pin_if_present_le,
}

abbrev AreQuiet : List CommandApdu → Type 0
AreQuiet [] = Unit
AreQuiet (apdu ∷ commands) = (presents_pin apdu ≡ false) × AreQuiet commands

abbrev AllQuiet : List (List CommandApdu) → Type 0
AllQuiet [] = Unit
AllQuiet (commands ∷ sequences) = AreQuiet commands × AllQuiet sequences

private_key_quiet : (key_id : ℕ) → AllQuiet (private_key_file_select_sequences key_id)
unfolding private_key_file_select_sequences select_private_key_file select_file_by_path
    select_file_by_id with_data new
private_key_quiet key_id = (
  (refl, tt),
  ((refl, tt), ((refl, (refl, (refl, (refl, tt)))), ((refl, tt), ((refl, (refl, tt)), tt)))),
)

signing_quiet :
    (digest : List ℕ) (len : ℕ) → presents_pin (pso_compute_digital_signature digest len) ≡ false
unfolding pso_compute_digital_signature with_le with_data new
signing_quiet [] len = refl
signing_quiet (b ∷ digest) len = refl

module _ {D F : Type 0} (answer : D → CommandApdu → Result F ResponseApdu × D) where
  select_along_le :
      (commands : List CommandApdu) (t : Token answer)
      → AreQuiet commands
      → presented (select_along answer commands t).1.log ≤ 0 + presented t.log
  unfolding select_along
  select_along_le [] t h = omega arith
  select_along_le (apdu ∷ commands) t h =
      let out =
        continue_le answer {B = Bool} (transmit answer apdu t)
          (λ resp t1. elim (is_success resp) [
            | true ↦ select_along answer commands t1
            | false ↦ (ok false, t1)
          ])
          0 (0 + presented t.log) (quiet_le answer apdu t h.0)
          (λ resp t1. elim (Bool-cases (is_success resp)) [
            | inl is ↦ rw is (select_along_le commands t1 h.1)
            | inr isnt ↦ rw isnt (omega arith)
          ]) in
      omega arith

  select_by_sequences_le :
      (sequences : List (List CommandApdu)) (t : Token answer)
      → AllQuiet sequences
      → presented (select_by_sequences answer sequences t).1.log ≤ 0 + presented t.log
  unfolding select_by_sequences select_master_file
  select_by_sequences_le [] t h = omega arith
  select_by_sequences_le (sequence ∷ sequences) t h =
      let next : (selected : Bool) (t2 : Token answer)
          → presented
              (elim selected as (λ b. Result (TokenError F) Unit × Token answer) [
                | true ↦ (ok tt, t2)
                | false ↦ select_by_sequences answer sequences t2
              ]).1.log
            ≤ 0 + presented t2.log =
        λ selected t2.
          elim selected
            as (λ b.
              presented
                (elim b as (λ b. Result (TokenError F) Unit × Token answer) [
                  | true ↦ (ok tt, t2)
                  | false ↦ select_by_sequences answer sequences t2
                ]).1.log
              ≤ 0 + presented t2.log) [
                | true ↦ omega arith
                | false ↦ select_by_sequences_le sequences t2 h.1
              ] in
      continue_le answer (succeed answer select_master_file t)
        (λ _ t1. continue_with answer (select_along answer sequence t1) (λ selected t2.
          elim selected [ true ↦ (ok tt, t2) | false ↦ select_by_sequences answer sequences t2 ]))
        0 (presented t.log) (omega (arith, succeed_le answer select_master_file t refl))
        (λ _ t1.
          continue_le answer (select_along answer sequence t1)
            (λ selected t2. elim selected [
              | true ↦ (ok tt, t2)
              | false ↦ select_by_sequences answer sequences t2
            ])
            0 (presented t1.log) (omega (arith, select_along_le sequence t1 h.0)) next)

  sign_digest_with_le :
      (len : ℕ) (digest : List ℕ) (t : Token answer)
      → presented (sign_digest_with answer len digest t).1.log ≤ 0 + presented t.log
  unfolding sign_digest_with pso_compute_digital_signature with_le with_data new
  sign_digest_with_le len digest t =
      let out : presented (sign_digest_with answer len digest t).1.log ≤ 0 + (0 + presented t.log) =
        continue_le answer (succeed answer (pso_compute_digital_signature digest len) t)
          (λ resp t1.
            if length resp.payload == len
            then (ok (signature_from_token resp.payload), t1)
            else (err bad_signature_length, t1))
          0 (0 + presented t.log)
          (succeed_le answer (pso_compute_digital_signature digest len) t
            (signing_quiet digest len))
          (λ resp t1.
            if_log answer (length resp.payload == len) (ok (signature_from_token resp.payload), t1)
              (err bad_signature_length, t1) (0 + presented t1.log) (omega arith) (omega arith)) in
      omega arith

  by_algorithm_le :
      (a : DigestAlgorithm) (digest : List ℕ) (t : Token answer)
      → presented (sign_by_algorithm answer a digest t).1.log ≤ 0 + presented t.log
  unfolding sign_by_algorithm
  by_algorithm_le gost3411_2012_256 digest t = sign_digest_with_le 64 digest t
  by_algorithm_le gost3411_2012_512 digest t = sign_digest_with_le 128 digest t
  by_algorithm_le sha256 digest t = omega arith
  by_algorithm_le sha384 digest t = omega arith
  by_algorithm_le sha512 digest t = omega arith

  -- The steps of `sign_digest_direct`, the last one first.
  module _ (key_id : ℕ) (pin : Option (List ℕ)) (a : DigestAlgorithm) (digest : List ℕ) where
    abbrev with_reference : Io answer (List ℕ)
    with_reference t =
        continue_with answer (succeed answer (manage_security_environment_for_signing key_id) t)
          (λ _ t1. sign_by_algorithm answer a digest t1)

    abbrev with_key : Io answer (List ℕ)
    with_key t =
        continue_with answer
          (select_by_sequences answer (private_key_file_select_sequences key_id) t)
          (λ _ t1. with_reference t1)

    abbrev with_pin : Io answer (List ℕ)
    with_pin t = continue_with answer (verify_pin_if_present answer pin t) (λ _ t1. with_key t1)

    with_reference_le :
        (t : Token answer) → presented (with_reference t).1.log ≤ 0 + presented t.log
    unfolding manage_security_environment_for_signing with_data new
    with_reference_le t =
        continue_le answer (succeed answer (manage_security_environment_for_signing key_id) t)
          (λ _ t1. sign_by_algorithm answer a digest t1) 0 (presented t.log)
          (omega (arith, succeed_le answer (manage_security_environment_for_signing key_id) t refl))
          (λ _ t1. by_algorithm_le a digest t1)

    with_key_le : (t : Token answer) → presented (with_key t).1.log ≤ 0 + presented t.log
    with_key_le t =
        let sequences = private_key_file_select_sequences key_id in
        continue_le answer (select_by_sequences answer sequences t) (λ _ t1. with_reference t1) 0
          (presented t.log)
          (omega (arith, select_by_sequences_le sequences t (private_key_quiet key_id)))
          (λ _ t1. with_reference_le t1)

    with_pin_le : (t : Token answer) → presented (with_pin t).1.log ≤ 2 + presented t.log
    with_pin_le t =
        let out =
          continue_le answer (verify_pin_if_present answer pin t) (λ _ t1. with_key t1) 0
            (2 + presented t.log) (verify_pin_if_present_le answer pin t)
            (λ _ t1. with_key_le t1) in
        omega (arith, out)

    -- A signature presents the PIN to the token at most twice, whatever the token answers and
    -- wherever the operation stops.
    pub sign_digest_direct_le :
        (t : Token answer)
        → presented (sign_digest_direct answer key_id pin a digest t).1.log ≤ 2 + presented t.log
    unfolding sign_digest_direct select_master_file with_data new
    sign_digest_direct_le t =
        let out =
          continue_le answer (succeed answer select_master_file t) (λ _ t1. with_pin t1) 2
            (presented t.log) (omega (arith, succeed_le answer select_master_file t refl))
            (λ _ t1. with_pin_le t1) in
        out
