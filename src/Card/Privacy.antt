-- ===== src/Card/Privacy.antt =====
-- What the exchange log shows of a PIN.
use crypto_kiddie.Prelude.{
  ℕ, ◌+◌, ◌≤◌, ◌≡◌, refl, ap, ◌∙◌, arith, List, [], ◌∷◌, append-nil, length, drop-all, replicate,
  true, le→ltb, ne→==, ok,
}
use crypto_kiddie.Card.Apdu.{CommandApdu, apdu_bytes}
use crypto_kiddie.Card.Ccid.{redact_verify_pin_data, redacted_apdu_bytes_for_log}
use crypto_kiddie.Card.Rutoken.{verify_pin}

verify_bytes :
    (pin : List ℕ)
    → 1 ≤ length pin
    → length pin ≤ 255
    → apdu_bytes (verify_pin pin) ≡ ok (0x00 ∷ 0x20 ∷ 0x00 ∷ 0x02 ∷ length pin ∷ pin)
unfolding apdu_bytes verify_pin
verify_bytes [] h k = absurd (omega arith)
verify_bytes (p ∷ ps) h k = rw (le→ltb 255 (length (p ∷ ps)) k, append-nil ps) refl

redact_lem :
    (n : ℕ) (pin : List ℕ)
    → 1 ≤ length pin
    → redact_verify_pin_data (0x00 ∷ 0x20 ∷ 0x00 ∷ 0x02 ∷ n ∷ pin) 0 (length pin)
      ≡ (0x00 ∷ 0x20 ∷ 0x00 ∷ 0x02 ∷ n ∷ replicate (length pin) 42, true)
unfolding redact_verify_pin_data
redact_lem n pin h =
    let whole : List ℕ = 0x00 ∷ 0x20 ∷ 0x00 ∷ 0x02 ∷ n ∷ pin in
    let stars : List ℕ = replicate (length pin) 42 in
    let size : 0 + 5 + length pin ≡ length whole = omega arith in
    rw
      (
        ne→== (length pin) 0 (λ e. omega arith),
        size,
        le→ltb (length whole) (length whole) (omega arith),
        drop-all (length pin) pin (omega arith),
        append-nil stars,
      )
      refl

redacted_bytes :
    (apdu : CommandApdu) (bytes : List ℕ)
    → apdu_bytes apdu ≡ ok bytes
    → redacted_apdu_bytes_for_log apdu ≡ ok (redact_verify_pin_data bytes 0 (length apdu.payload))
unfolding redacted_apdu_bytes_for_log
redacted_bytes apdu bytes e = rw e refl

redact_pin :
    (pin : List ℕ)
    → 1 ≤ length pin
    → redact_verify_pin_data
        (0x00 ∷ 0x20 ∷ 0x00 ∷ 0x02 ∷ length pin ∷ pin)
        0
        (length (verify_pin pin).payload)
      ≡ (0x00 ∷ 0x20 ∷ 0x00 ∷ 0x02 ∷ length pin ∷ replicate (length pin) 42, true)
unfolding verify_pin
redact_pin pin h = redact_lem (length pin) pin h

-- The log line of a VERIFY shows the header, the number of bytes of the PIN and as many stars: it
-- is the same for every PIN of one length, where the PIN is not empty and fits an APDU.
pub redacted_apdu_bytes_for_log-verify_pin :
    (pin : List ℕ)
    → 1 ≤ length pin
    → length pin ≤ 255
    → redacted_apdu_bytes_for_log (verify_pin pin)
      ≡ ok (0x00 ∷ 0x20 ∷ 0x00 ∷ 0x02 ∷ length pin ∷ replicate (length pin) 42, true)
redacted_apdu_bytes_for_log-verify_pin pin h k =
    redacted_bytes (verify_pin pin) _ (verify_bytes pin h k) ∙ ap ok (redact_pin pin h)
