-- ===== src/Login/Certificates/Found.antt =====
-- A certificate that is built field by field: what the two walks over it find.
use crypto_kiddie.Prelude.{
  ℕ, suc, ◌+◌, ◌^◌, ◌≤◌, ◌<◌, ◌≡◌, refl, sym, ap, ◌∙◌, arith, List, [], ◌∷◌, ◌++◌, append_assoc,
  append-nil, flatten, map, length, length-append, take-append, ◌==◌, if◌then◌else◌, ok, Result,
}
use crypto_kiddie.Der.{
  DerError, der_tlv, der_len, Tlv, der_peek, der_read_tlv, der_skip, der_expect_sequence,
}
use crypto_kiddie.Der.RoundTrip.{der_peek-der_tlv}
use crypto_kiddie.Login.Certificates.{
  skip_fields, spki_position, spki_content, point_of, extract_subject_public_point,
  extract_spki_algorithm,
}

-- A field by its tag and its content.
abbrev pub Field : Type 0
Field = ℕ × List ℕ

abbrev pub encoded : Field → List ℕ
encoded f = der_tlv f.0 f.1

abbrev pub encoded_all : List Field → List ℕ
encoded_all fields = flatten (map encoded fields)

content_le : (tag : ℕ) (content : List ℕ) → length content ≤ length (der_tlv tag content)
unfolding der_tlv
content_le tag content = omega (arith, length-append (der_len (length content)) content)

content_fits :
    (tag : ℕ) (content rest : List ℕ)
    → length (der_tlv tag content ++ rest) < 256 ^ 4
    → (length content < 256 ^ 4) × (length rest < 256 ^ 4)
content_fits tag content rest h =
    let sum = length-append (der_tlv tag content) rest in
    (omega (arith, content_le tag content), omega arith)

rest_fits :
    (fields : List Field) (rest : List ℕ)
    → length (encoded_all fields ++ rest) < 256 ^ 4
    → length rest < 256 ^ 4
rest_fits fields rest h = omega (arith, length-append (encoded_all fields) rest)

-- The field at the front.
abbrev tlv_with : ℕ → List ℕ → ℕ → Tlv
tlv_with tag content next = record { tag = tag; content = content; next = next }

der_peek_front :
    (tag : ℕ) (content rest : List ℕ)
    → length content < 256 ^ 4
    → der_peek (der_tlv tag content ++ rest) 0
      ≡ ok (tlv_with tag content (length (der_tlv tag content)))
der_peek_front tag content rest h =
    let at : 0 + length (der_tlv tag content) ≡ length (der_tlv tag content) = omega arith in
    der_peek-der_tlv [] content rest tag h
    ∙ ap (λ (n : ℕ). let r : Result DerError Tlv = ok (tlv_with tag content n) in r) at

der_peek_alone :
    (tag : ℕ) (content : List ℕ)
    → length content < 256 ^ 4
    → der_peek (der_tlv tag content) 0 ≡ ok (tlv_with tag content (length (der_tlv tag content)))
der_peek_alone tag content h =
    ap (λ (x : List ℕ). der_peek x 0) (sym (append-nil (der_tlv tag content)))
    ∙ der_peek_front tag content [] h

der_skip_front :
    (tag : ℕ) (content rest : List ℕ)
    → length content < 256 ^ 4
    → der_skip (der_tlv tag content ++ rest) 0 ≡ ok (length (der_tlv tag content))
unfolding der_skip
der_skip_front tag content rest h = rw (der_peek_front tag content rest h) refl

-- A field is skipped.
der_skip-der_tlv :
    (pre content rest : List ℕ) (tag : ℕ)
    → length content < 256 ^ 4
    → der_skip (pre ++ (der_tlv tag content ++ rest)) (length pre)
      ≡ ok (length pre + length (der_tlv tag content))
unfolding der_skip
der_skip-der_tlv pre content rest tag h = rw (der_peek-der_tlv pre content rest tag h) refl

der_read_tlv-der_tlv :
    (pre content rest : List ℕ) (tag : ℕ)
    → length content < 256 ^ 4
    → der_read_tlv (pre ++ (der_tlv tag content ++ rest)) (length pre)
      ≡ ok (content, length pre + length (der_tlv tag content))
unfolding der_read_tlv
der_read_tlv-der_tlv pre content rest tag h = rw (der_peek-der_tlv pre content rest tag h) refl

skip_fields-encoded :
    (fields : List Field) (pre rest : List ℕ)
    → length (encoded_all fields ++ rest) < 256 ^ 4
    → skip_fields (length fields) (pre ++ (encoded_all fields ++ rest)) (length pre)
      ≡ ok (length pre + length (encoded_all fields))
unfolding skip_fields flatten
skip_fields-encoded [] pre rest h = ap ok (omega arith)
skip_fields-encoded (f ∷ fields) pre rest h =
    let behind = encoded_all fields ++ rest in
    let shape : pre ++ (encoded_all (f ∷ fields) ++ rest) ≡ pre ++ (encoded f ++ behind) =
      ap (λ (x : List ℕ). pre ++ x) (append_assoc (encoded f) (encoded_all fields) rest) in
    let shape' : pre ++ (encoded f ++ behind) ≡ (pre ++ encoded f) ++ behind =
      sym (append_assoc pre (encoded f) behind) in
    let fits =
      content_fits f.0 f.1 behind
        (omega (arith, ap length (append_assoc (encoded f) (encoded_all fields) rest))) in
    let at : length pre + length (encoded f) ≡ length (pre ++ encoded f) =
      sym (length-append pre (encoded f)) in
    rw (shape, der_skip-der_tlv pre f.1 behind f.0 fits.0)
      (rw (at, shape', skip_fields-encoded fields (pre ++ encoded f) rest fits.1)
        (ap ok (
          omega (
            arith,
            length-append pre (encoded f),
            length-append (encoded f) (encoded_all fields),
          ))))

-- How many fields stand before subjectPublicKeyInfo, its first one given.
abbrev pub field_count : Field → ℕ
field_count f = if f.0 == 0xA0 then 6 else 5

spki_position-encoded :
    (f : Field) (fields : List Field) (rest : List ℕ)
    → field_count f ≡ suc (length fields)
    → length (encoded_all (f ∷ fields) ++ rest) < 256 ^ 4
    → spki_position (encoded_all (f ∷ fields) ++ rest) ≡ ok (length (encoded_all (f ∷ fields)))
unfolding spki_position flatten
spki_position-encoded f fields rest count h =
    let shape : encoded_all (f ∷ fields) ++ rest ≡ encoded f ++ (encoded_all fields ++ rest) =
      append_assoc (encoded f) (encoded_all fields) rest in
    let fits = content_fits f.0 f.1 (encoded_all fields ++ rest) (omega (arith, ap length shape)) in
    let peek : der_peek (encoded_all (f ∷ fields) ++ rest) 0
        ≡ ok (tlv_with f.0 f.1 (length (encoded f))) =
      ap (λ (x : List ℕ). der_peek x 0) shape
      ∙ der_peek_front f.0 f.1 (encoded_all fields ++ rest) fits.0 in
    let here : 0 + length (encoded_all (f ∷ fields)) ≡ length (encoded_all (f ∷ fields)) =
      omega arith in
    rw (peek, count)
      (skip_fields-encoded (f ∷ fields) [] rest h
        ∙ ap (λ (n : ℕ). let r : Result DerError ℕ = ok n in r) here)

module _ (f : Field) (fields : List Field) (algorithm point : List ℕ) where
  -- The key's algorithm, and the point in an octet string in a bit string without unused bits.
  abbrev pub spki_of : List ℕ
  spki_of = der_tlv 0x30 algorithm ++ (der_tlv 0x03 (0x00 ∷ der_tlv 0x04 point) ++ [])

  abbrev pub tbs_of : List ℕ → List ℕ
  tbs_of extensions = encoded_all (f ∷ fields) ++ (der_tlv 0x30 spki_of ++ extensions)

  -- The certificate, with the extensions behind the key and the signature behind the body.
  abbrev pub certificate_of : List ℕ → List ℕ → List ℕ
  certificate_of extensions signature =
      der_tlv 0x30 (der_tlv 0x30 (tbs_of extensions) ++ signature) ++ []

  module _ (extensions signature : List ℕ) (count : field_count f ≡ suc (length fields))
      (fits : length (der_tlv 0x30 (tbs_of extensions) ++ signature) < 256 ^ 4) where
    tbs_fits : length (tbs_of extensions) < 256 ^ 4
    tbs_fits = (content_fits 0x30 (tbs_of extensions) signature fits).0

    spki_fits : length spki_of < 256 ^ 4
    spki_fits =
        (content_fits 0x30 spki_of extensions
          (rest_fits (f ∷ fields) (der_tlv 0x30 spki_of ++ extensions) tbs_fits)).0

    spki_content-certificate_of : spki_content (certificate_of extensions signature) ≡ ok spki_of
    unfolding spki_content der_expect_sequence
    spki_content-certificate_of =
        let body = der_tlv 0x30 (tbs_of extensions) ++ signature in
        rw
          (
            der_peek-der_tlv [] body [] 0x30 fits,
            der_read_tlv-der_tlv [] (tbs_of extensions) signature 0x30 tbs_fits,
            spki_position-encoded f fields (der_tlv 0x30 spki_of ++ extensions) count tbs_fits,
            der_read_tlv-der_tlv (encoded_all (f ∷ fields)) spki_of extensions 0x30 spki_fits,
          )
          refl

    -- The algorithm that is found is the key's, tag and length included.
    pub extract_spki_algorithm-certificate_of :
        extract_spki_algorithm (certificate_of extensions signature) ≡ ok (der_tlv 0x30 algorithm)
    unfolding extract_spki_algorithm
    extract_spki_algorithm-certificate_of =
        let key = der_tlv 0x03 (0x00 ∷ der_tlv 0x04 point) ++ [] in
        rw
          (
            spki_content-certificate_of,
            der_peek_front 0x30 algorithm key (content_fits 0x30 algorithm key spki_fits).0,
            take-append (der_tlv 0x30 algorithm) key (length (der_tlv 0x30 algorithm)) refl,
          )
          refl

    -- The point that is found in a certificate is the one that was put there: with or without a
    -- version in front, whatever the other fields, the extensions and the signature are, where
    -- the certificate's length fits four bytes.
    pub extract_subject_public_point-certificate_of :
        extract_subject_public_point (certificate_of extensions signature) ≡ ok point
    unfolding extract_subject_public_point point_of
    extract_subject_public_point-certificate_of =
        let bits = 0x00 ∷ der_tlv 0x04 point in
        let key = der_tlv 0x03 bits ++ [] in
        let bits_fit =
          (content_fits 0x03 bits [] (content_fits 0x30 algorithm key spki_fits).1).0 in
        let point_fits : length point < 256 ^ 4 = omega (arith, content_le 0x04 point) in
        rw
          (
            spki_content-certificate_of,
            der_skip_front 0x30 algorithm key (content_fits 0x30 algorithm key spki_fits).0,
            der_peek-der_tlv (der_tlv 0x30 algorithm) bits [] 0x03 bits_fit,
            der_peek_alone 0x04 point point_fits,
          )
          refl
