-- ===== src/Card/Token/Scan.antt =====
-- src/lib.rs: `read_certificate_direct` and the scan over the token's files.
use crypto_kiddie.Prelude.{
  ℕ, if◌then◌else◌, bit_or, List, [], ◌∷◌, true, false, ltb, ◌==◌, Option, none, some, range, map,
  flatten, Result, ok, err,
}
use crypto_kiddie.Card.Apdu.{CommandApdu, ResponseApdu, is_success}
use crypto_kiddie.Card.Rutoken.{
  select_master_file, select_file_by_id, certificate_file_select_sequences,
}
use crypto_kiddie.Card.Token.{
  TokenError, no_certificate, Token, Io, continue_with, transmit, succeed, select_along,
  select_by_sequences, verify_pin_if_present, read_selected_certificate,
}

-- `sort_unstable` and `dedup`.
unfoldable pub insert_id : ℕ → List ℕ → List ℕ
insert_id id [] = id ∷ []
insert_id id (x ∷ ids) =
    let rest = insert_id id ids in
    if id == x then (x ∷ ids) else (if ltb id x then (id ∷ x ∷ ids) else (x ∷ rest))

abbrev sorted : List ℕ → List ℕ
sorted [] = []
sorted (id ∷ ids) = insert_id id (sorted ids)

unfoldable pub certificate_candidate_file_ids : ℕ → List ℕ
unfolding insert_id
certificate_candidate_file_ids key_id = sorted (
    flatten (
      map (λ base. bit_or base key_id ∷ map (bit_or base) (range 1 0x20))
        (0x0000 ∷ 0x0100 ∷ 0x0200 ∷ 0x0300 ∷ 0x0400 ∷ 0x0500 ∷ 0x0600 ∷ 0x4000 ∷ 0x5000 ∷ [])))

-- The commands that lead to each directory.
abbrev pub directories : List (List CommandApdu)
directories =
    (select_file_by_id 0x1000 ∷ select_file_by_id 0x1000 ∷ select_file_by_id 0x6004 ∷ [])
    ∷ (select_file_by_id 0x1000 ∷ select_file_by_id 0x1000 ∷ [])
    ∷ (select_file_by_id 0x5000 ∷ [])
    ∷ []
    ∷ []

module _ {D F : Type 0} (answer : D → CommandApdu → Result F ResponseApdu × D) where
  -- A file that cannot be read counts as one without a certificate.
  abbrev ignore_error :
      Result (TokenError F) (List ℕ) × Token answer
      → Result (TokenError F) (Option (List ℕ)) × Token answer
  ignore_error (ok certificate, t) = (ok (some certificate), t)
  ignore_error (err e, t) = (ok none, t)

  -- The body of the inner loop; no certificate where it goes on.
  unfoldable pub scan_file : List CommandApdu → ℕ → Io answer (Option (List ℕ))
  unfolding transmit is_success select_along read_selected_certificate select_master_file
      select_file_by_id
  scan_file commands file_id t =
      continue_with answer (transmit answer select_master_file t) (λ reset t1.
        elim (is_success reset) [
          | false ↦ (ok none, t1)
          | true ↦ continue_with answer (select_along answer commands t1) (λ selected t2.
              elim selected [
                | false ↦ (ok none, t2)
                | true ↦
                    continue_with answer (transmit answer (select_file_by_id file_id) t2)
                      (λ chosen t3. elim (is_success chosen) [
                        | false ↦ (ok none, t3)
                        | true ↦ ignore_error (read_selected_certificate answer t3)
                      ])
              ])
        ])

  unfoldable pub scan_directory : List CommandApdu → List ℕ → Io answer (Option (List ℕ))
  unfolding scan_file
  scan_directory commands [] t = (ok none, t)
  scan_directory commands (file_id ∷ ids) t =
      continue_with answer (scan_file commands file_id t) (λ found t1. elim found [
        | some certificate ↦ (ok (some certificate), t1)
        | none ↦ scan_directory commands ids t1
      ])

  unfoldable pub scan_directories : List (List CommandApdu) → List ℕ → Io answer (List ℕ)
  unfolding scan_directory
  scan_directories [] ids t = (err no_certificate, t)
  scan_directories (commands ∷ rest) ids t =
      continue_with answer (scan_directory commands ids t) (λ found t1. elim found [
        | some certificate ↦ (ok certificate, t1)
        | none ↦ scan_directories rest ids t1
      ])

  unfoldable pub scan_certificate_files : ℕ → Io answer (List ℕ)
  unfolding scan_directories certificate_candidate_file_ids
  scan_certificate_files key_id t =
      scan_directories directories (certificate_candidate_file_ids key_id) t

  abbrev or_scan :
      ℕ
      → Result (TokenError F) (List ℕ) × Token answer
      → Result (TokenError F) (List ℕ) × Token answer
  or_scan key_id (ok certificate, t) = (ok certificate, t)
  or_scan key_id (err e, t) = scan_certificate_files key_id t

  unfoldable pub read_certificate_direct : ℕ → Option (List ℕ) → Io answer (List ℕ)
  unfolding succeed verify_pin_if_present select_by_sequences certificate_file_select_sequences
      read_selected_certificate scan_certificate_files
  read_certificate_direct key_id pin t =
      continue_with answer (succeed answer select_master_file t) (λ _ t1.
        continue_with answer (verify_pin_if_present answer pin t1) (λ _ t2. or_scan key_id (
          continue_with answer
            (select_by_sequences answer (certificate_file_select_sequences key_id) t2)
            (λ _ t3. read_selected_certificate answer t3))))
