-- ===== src/Card/Token/Extraction.antt =====
-- The certificate that is cut out of a file.
use crypto_kiddie.Prelude.{
  ℕ, ◌≤◌, ◌≡◌, sym, subst, ap, ◌∙◌, arith, List, [], ◌∷◌, ◌++◌, leb, Bool-cases, inl, inr,
  Option-cases, IsBytes, Result, ok, some, some_injective, length, take, drop, length-take,
  take-append-drop,
}
use crypto_kiddie.Der.{DerError, Tlv, der_peek}
use crypto_kiddie.Card.Token.Header.{der_sequence_total_len-IsSequence}
use crypto_kiddie.Card.Token.{der_sequence_total_len, extract_first_der_certificate}

-- A certificate stands between `before` and `behind`, and the DER reader of the login reads it there
-- as one sequence that ends where it ends.
pub record Found (bytes certificate : List ℕ) : Type 0 where
  pub before : List ℕ
  pub behind : List ℕ
  pub content : List ℕ
  pub stands : before ++ (certificate ++ behind) ≡ bytes
  pub reads :
      der_peek (certificate ++ behind) 0
      ≡ ok (record { tag = 0x30; content = content; next = length certificate })

one_more :
    (b : ℕ) (bytes certificate : List ℕ) → Found bytes certificate → Found (b ∷ bytes) certificate
one_more b bytes certificate f = record {
  before = b ∷ f.before;
  behind = f.behind;
  content = f.content;
  stands = ap (λ (x : List ℕ). b ∷ x) f.stands;
  reads = f.reads;
}

cut_here :
    (bytes : List ℕ) (total : ℕ)
    → IsBytes bytes
    → der_sequence_total_len bytes ≡ some total
    → total ≤ length bytes
    → Found bytes (take total bytes)
cut_here bytes total valid is h =
    let whole = take-append-drop total bytes in
    let (content, found) = der_sequence_total_len-IsSequence bytes total valid is h in
    record {
      before = [];
      behind = drop total bytes;
      content = content;
      stands = whole;
      reads =
          ap (λ (x : List ℕ). der_peek x 0) whole
          ∙ found
          ∙ ap
              (λ (n : ℕ).
                let r : Result DerError Tlv =
                  ok (record { tag = 0x30; content = content; next = n }) in
                r)
              (sym (length-take total bytes h));
    }

-- What is cut out of a file of bytes is a piece of it that the DER reader of the login, which is
-- another implementation, reads as one sequence: with the tag 0x30, and with a length that ends
-- exactly at the end of the piece.
pub extract_first_der_certificate-Found :
    (bytes certificate : List ℕ)
    → IsBytes bytes
    → extract_first_der_certificate bytes ≡ some certificate
    → Found bytes certificate
unfolding extract_first_der_certificate
extract_first_der_certificate-Found [] certificate valid e = absurd cc
extract_first_der_certificate-Found (b ∷ bytes) certificate valid e =
    elim (Option-cases (der_sequence_total_len (b ∷ bytes))) [
      | inl missing ↦ one_more b bytes certificate (
          extract_first_der_certificate-Found bytes certificate valid.1
            (rw (extract_first_der_certificate, missing) at e))
      | inr (total, is) ↦ elim (Bool-cases (leb total (length (b ∷ bytes)))) [
        | inl fits ↦
            subst (Found (b ∷ bytes))
              (some_injective (rw (extract_first_der_certificate, is, fits) at e))
              (cut_here (b ∷ bytes) total valid is (ground (arith)))
        | inr long ↦ one_more b bytes certificate (
            extract_first_der_certificate-Found bytes certificate valid.1
              (rw (extract_first_der_certificate, is, long) at e))
      ]
    ]
