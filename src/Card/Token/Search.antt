-- ===== src/Card/Token/Search.antt =====
-- The search for a certificate in a file of the token, against the encoder of
-- src/gost_keytransport.rs.
use crypto_kiddie.Prelude.{
  ℕ, zero, suc, ◌+◌, ◌^◌, ◌≤◌, ◌<◌, ◌≡◌, refl, ap, ◌∙◌, arith, bit_or, List, [], ◌∷◌, ◌++◌, reverse,
  true, ltb, leb, le→ltb, lt→ltb, ltb→lt, ltb→le, ne→==, Bool-cases, inl, inr, some, none, Option,
  length, take, length-append, take-append, append_assoc, All,
}
use crypto_kiddie.Der.{low_bytes, der_tlv}
use crypto_kiddie.Der.RoundTrip.{
  shifted, length-reverse, low_bytes_lem, low_bytes_count, low_bytes_some, long_mark, der_len_short,
  der_len_long,
}
use crypto_kiddie.Card.Token.Header.{fold_len-shifted, high_bit}
use crypto_kiddie.Card.Token.{der_sequence_total_len, extract_first_der_certificate}

mark_below : (k : ℕ) → 1 ≤ k → k ≤ 4 → bit_or 0x80 k < 256
mark_below zero p q = absurd (omega arith)
mark_below (suc zero) p q = omega arith
mark_below (suc (suc zero)) p q = omega arith
mark_below (suc (suc (suc zero))) p q = omega arith
mark_below (suc (suc (suc (suc zero)))) p q = omega arith
mark_below (suc (suc (suc (suc (suc k))))) p q = absurd (omega arith)

total_short :
    (n : ℕ) (rest : List ℕ) → n < 0x80 → der_sequence_total_len (0x30 ∷ n ∷ rest) ≡ some (2 + n)
unfolding der_sequence_total_len
total_short n rest h =
    rw
      (le→ltb (length (0x30 ∷ n ∷ rest)) 2 (omega arith), high_bit n (omega arith), lt→ltb n 0x80 h)
      refl

total_long :
    (bytes rest : List ℕ)
    → 1 ≤ length bytes
    → length bytes ≤ 4
    → der_sequence_total_len (0x30 ∷ bit_or 0x80 (length bytes) ∷ (bytes ++ rest))
      ≡ some (2 + length bytes + shifted 0 bytes)
unfolding der_sequence_total_len
total_long bytes rest p q =
    let k = length bytes in
    let mark = long_mark k p q in
    let size = length (0x30 ∷ bit_or 0x80 k ∷ (bytes ++ rest)) in
    rw
      (
        le→ltb size 2 (omega arith),
        high_bit (bit_or 0x80 k) (mark_below k p q),
        le→ltb (bit_or 0x80 k) 0x80 mark.1,
        mark.0,
        ne→== k 0 (λ z. omega arith),
        le→ltb 4 k q,
        le→ltb size (2 + k) (omega (arith, length-append bytes rest)),
        take-append bytes rest k refl,
        fold_len-shifted bytes 0,
      )
      refl

-- The header of a sequence that the encoder made gives its length.
total-der_tlv :
    (content rest : List ℕ)
    → length content < 256 ^ 4
    → der_sequence_total_len (der_tlv 0x30 content ++ rest) ≡ some (length (der_tlv 0x30 content))
unfolding der_tlv
total-der_tlv content rest h =
    let n = length content in
    elim (Bool-cases (ltb n 0x80)) [
      | inl short ↦
          let below = ltb→lt _ _ short in
          rw (der_len_short n below) (
            total_short n (content ++ rest) below
            ∙ ap (λ (t : ℕ). let o : Option ℕ = some t in o) {x = 2 + n} (omega arith))
      | inr long ↦
          let bytes = reverse (low_bytes 8 n) in
          let count : length bytes ≡ length (low_bytes 8 n) = length-reverse _ in
          let above = ltb→le _ _ long in
          let some_bytes = low_bytes_some 7 n (omega arith) in
          let few_bytes = low_bytes_count 8 4 n h in
          let value = low_bytes_lem 8 n (omega arith) in
          rw (der_len_long n above, append_assoc bytes content rest)
            (total_long bytes (content ++ rest) (omega arith) (omega arith)
              ∙ ap (λ (t : ℕ). let o : Option ℕ = some t in o)
                  (omega (arith, value, length-append bytes content)))
    ]

no_sequence : (x : ℕ) (bytes : List ℕ) → ¬ (x ≡ 0x30) → der_sequence_total_len (x ∷ bytes) ≡ none
unfolding der_sequence_total_len
no_sequence x bytes h = elim (Bool-cases (ltb (length (x ∷ bytes)) 2)) [
  | inl few ↦ rw few refl
  | inr many ↦ rw (many, ne→== x 0x30 h) refl
]

found_here :
    (bytes : List ℕ) (total : ℕ)
    → der_sequence_total_len bytes ≡ some total
    → 1 ≤ length bytes
    → total ≤ length bytes
    → extract_first_der_certificate bytes ≡ some (take total bytes)
unfolding extract_first_der_certificate
found_here [] total e more h = absurd (omega arith)
found_here (b ∷ bytes) total e more h =
    let fits : leb total (length (b ∷ bytes)) ≡ true = ground arith in
    rw (extract_first_der_certificate, e, fits) refl

-- A certificate that the encoder made is found and cut out whole: behind bytes that are no tag of
-- a sequence, and before any others. Its content's length has up to four bytes.
pub extract_first_der_certificate-der_tlv :
    (before content behind : List ℕ)
    → All (λ (x : ℕ). ¬ (x ≡ 0x30)) before
    → length content < 256 ^ 4
    → extract_first_der_certificate (before ++ (der_tlv 0x30 content ++ behind))
      ≡ some (der_tlv 0x30 content)
unfolding extract_first_der_certificate
extract_first_der_certificate-der_tlv [] content behind clean h =
    let der = der_tlv 0x30 content in
    let size = length-append der behind in
    let full : 1 ≤ length der = unfold der_tlv in omega arith in
    found_here (der ++ behind) (length der) (total-der_tlv content behind h) (omega arith)
      (omega arith)
    ∙ ap some (take-append der behind (length der) refl)
extract_first_der_certificate-der_tlv (x ∷ before) content behind clean h =
    rw
      (
        extract_first_der_certificate,
        no_sequence x (before ++ (der_tlv 0x30 content ++ behind)) clean.0,
      )
      (extract_first_der_certificate-der_tlv before content behind clean.1 h)
