-- ===== src/Tls/Framing.antt =====
-- Records and length-prefixed vectors on a stream: what was written is read back.
use crypto_kiddie.Prelude.{
  ℕ, zero, suc, ◌^◌, ◌≤◌, ◌<◌, ◌≡◌, refl, sym, ap, ◌∙◌, arith, List, [], ◌∷◌, ◌++◌, flatten, map,
  length, be_bytes, be_value-be_bytes_two, be_value-be_bytes_three, take-append, drop-append,
  length-append, append_assoc, append-nil, le→ltb, All, ok,
}
use crypto_kiddie.Tls.Types.{
  ContentType, ProtocolVersion, content_type_code, content_type_from_u8-code_iff,
}
use crypto_kiddie.Tls.Wire.{
  encode_record, read_bytes, read_number, read_vec, certificate_entries, parse_certificates,
}
use crypto_kiddie.Tls.Transport.{read_record}
use crypto_kiddie.Client.{certificate_entry, certificate_body}

read_bytes-append : (xs ys : List ℕ) → read_bytes (length xs) (xs ++ ys) ≡ ok (xs, ys)
unfolding read_bytes
read_bytes-append xs ys =
    let fits : length xs ≤ length (xs ++ ys) = omega (arith, length-append xs ys) in
    rw
      (
        le→ltb (length (xs ++ ys)) (length xs) fits,
        take-append xs ys (length xs) refl,
        drop-append xs ys (length xs) refl,
      )
      refl

read_vec-three :
    (xs ys : List ℕ)
    → length xs < 2 ^ 24
    → read_vec 3 (be_bytes 3 (length xs) ++ (xs ++ ys)) ≡ ok (xs, ys)
unfolding read_vec read_number
read_vec-three xs ys h =
    rw
      (read_bytes-append (be_bytes 3 (length xs)) (xs ++ ys), be_value-be_bytes_three (length xs) h)
      (read_bytes-append xs ys)

-- A record that was sent is read back from the stream, with its type, its version and its payload,
-- and the stream goes on behind it, where the payload's length fits the header's two bytes.
pub read_record-encode_record :
    (t : ContentType) (v : ProtocolVersion) (payload rest : List ℕ)
    → length payload < 2 ^ 16
    → read_record (encode_record t v payload ++ rest)
      ≡ ok (record { content_type = t; version = v; payload = payload }, rest)
unfolding read_record encode_record
read_record-encode_record t v payload rest h =
    let known = (content_type_from_u8-code_iff (content_type_code t) t).1 refl in
    let whole = encode_record t v payload ++ rest in
    let long : 5 ≤ length whole = omega arith in
    let fits : length payload ≤ length (payload ++ rest) =
      omega (arith, length-append payload rest) in
    rw
      (
        le→ltb (length whole) 5 long,
        known,
        be_value-be_bytes_two (length payload) h,
        le→ltb (length (payload ++ rest)) (length payload) fits,
        take-append payload rest (length payload) refl,
        drop-append payload rest (length payload) refl,
      )
      refl

certificate_entries_lem :
    (chain : List (List ℕ)) (rounds : ℕ)
    → length chain ≤ rounds
    → All (λ cert. length cert < 2 ^ 24) chain
    → certificate_entries rounds (flatten (map certificate_entry chain)) ≡ ok chain
unfolding certificate_entries certificate_entry flatten
certificate_entries_lem [] zero h sizes = refl
certificate_entries_lem [] (suc rounds) h sizes = refl
certificate_entries_lem (cert ∷ chain) zero h sizes = absurd (omega arith)
certificate_entries_lem (cert ∷ chain) (suc rounds) h sizes =
    let rest = flatten (map certificate_entry chain) in
    let read : read_vec 3 (certificate_entry cert ++ rest) ≡ ok (cert, rest) =
      ap (read_vec 3) (append_assoc (be_bytes 3 (length cert)) cert rest)
      ∙ read_vec-three cert rest sizes.0 in
    rw (read, certificate_entries_lem chain rounds (omega arith) sizes.1) refl

length-entries :
    (chain : List (List ℕ)) → length chain ≤ length (flatten (map certificate_entry chain))
unfolding flatten certificate_entry
length-entries [] = omega arith
length-entries (cert ∷ chain) =
    omega
      (arith, length-entries chain, length-append (cert) (flatten (map certificate_entry chain)))

-- The server's parser reads back the chain from the body that the client's `Certificate` message
-- has, where each certificate and the whole list fit a length of three bytes.
pub parse_certificates-certificate_body :
    (chain : List (List ℕ))
    → All (λ cert. length cert < 2 ^ 24) chain
    → length (flatten (map certificate_entry chain)) < 2 ^ 24
    → parse_certificates (certificate_body chain) ≡ ok chain
unfolding parse_certificates certificate_body
parse_certificates-certificate_body chain sizes fits =
    let list = flatten (map certificate_entry chain) in
    let read : read_vec 3 (be_bytes 3 (length list) ++ list) ≡ ok (list, []) =
      ap (λ (t : List ℕ). read_vec 3 (be_bytes 3 (length list) ++ t)) (sym (append-nil list))
      ∙ read_vec-three list [] fits in
    rw read (certificate_entries_lem chain (length list) (length-entries chain) sizes)
