-- ===== src/Der.antt =====
-- DER: the encoder of src/gost_keytransport.rs and the reader of src/gost_login.rs.
pub mod RoundTrip
use crypto_kiddie.Prelude.{
  ℕ, zero, suc, ◌+◌, ◌-◌, ◌*◌, ◌/◌, ◌%◌, bit_and, bit_or, List, [], ◌∷◌, ◌++◌, flatten, map,
  reverse, if◌then◌else◌, ltb, ◌==◌, ◌||◌, Option, none, some, length, take, drop, get_elem?,
  get_or, Result, ok, err, and_then, ok_or,
}

-- The loop of `der_len` that pushes the low byte while something is left. A `usize` has 64 bits,
-- so 8 rounds are enough.
unfoldable pub low_bytes : ℕ → ℕ → List ℕ
low_bytes zero n = []
low_bytes (suc rounds) n =
    let rest = low_bytes rounds (n / 256) in if n == 0 then [] else (n % 256 ∷ rest)

unfoldable pub der_len : ℕ → List ℕ
unfolding low_bytes
der_len len =
    let bytes = reverse (low_bytes 8 len) in
    if ltb len 0x80 then len ∷ [] else (bit_or 0x80 (length bytes) ∷ bytes)

unfoldable pub der_tlv : ℕ → List ℕ → List ℕ
unfolding der_len
der_tlv tag content = tag ∷ (der_len (length content) ++ content)

unfoldable pub der_octet_string : List ℕ → List ℕ
unfolding der_tlv
der_octet_string content = der_tlv 0x04 content

-- The loop of `der_oid_arc` behind the first seven bits; a `u32` needs 4 rounds.
unfoldable pub arc_bytes : ℕ → ℕ → List ℕ
arc_bytes zero value = []
arc_bytes (suc rounds) value =
    let rest = arc_bytes rounds (value / 128) in
    if value == 0 then [] else (bit_or (value % 128) 0x80 ∷ rest)

unfoldable pub der_oid_arc : ℕ → List ℕ
unfolding arc_bytes
der_oid_arc value = reverse (value % 128 ∷ arc_bytes 4 (value / 128))

-- At least two arcs, as the debug assertion says; `&arcs[2..]` would fail without them.
unfoldable pub der_oid : List ℕ → List ℕ
unfolding der_tlv der_oid_arc
der_oid arcs =
    let first = (get_or arcs 0 0 * 40 + get_or arcs 1 0) % 256 in
    der_tlv 0x06 (first ∷ flatten (map der_oid_arc (drop 2 arcs)))

unfoldable pub der_sequence : List ℕ → List ℕ
unfolding der_tlv
der_sequence content = der_tlv 0x30 content

pub data DerError : Type 0 where
  truncated_tag truncated_length unsupported_length truncated_long_length : DerError
  length_overflow content_out_of_range not_a_sequence : DerError

-- The loop of `der_peek` over a long length: `num` bytes from index `at`.
unfoldable pub long_length : List ℕ → ℕ → ℕ → ℕ → Result DerError ℕ
long_length bytes at zero len = ok len
long_length bytes at (suc num) len =
    and_then (ok_or truncated_long_length (get_elem? bytes at))
      (λ b. long_length bytes (at + 1) num (len * 256 + b))

pub record Tlv : Type 0 where
  pub tag : ℕ
  pub content : List ℕ
  pub next : ℕ

-- The length that stands at `pos + 1`, and how many bytes come before the content.
unfoldable pub read_length : List ℕ → ℕ → ℕ → Result DerError (ℕ × ℕ)
unfolding long_length
read_length bytes pos len_byte =
    let num = bit_and len_byte 0x7f in
    if ltb len_byte 0x80
    then ok (len_byte, 2)
    else (if (num == 0) || ltb 4 num
        then err unsupported_length
        else and_then (long_length bytes (pos + 2) num 0) (λ len. ok (len, 2 + num)))

-- Positions fit a `usize`, so that `checked_add` does not fail on the four length bytes.
unfoldable pub der_peek : List ℕ → ℕ → Result DerError Tlv
unfolding read_length
der_peek bytes pos = and_then (ok_or truncated_tag (get_elem? bytes pos)) (λ tag.
    and_then (ok_or truncated_length (get_elem? bytes (pos + 1))) (λ len_byte.
      and_then (read_length bytes pos len_byte) (λ found.
        let start = pos + found.1 in
        let end = start + found.0 in
        if ltb (length bytes) end
        then err content_out_of_range
        else ok (record { tag = tag; content = take found.0 (drop start bytes); next = end }))))

unfoldable pub der_read_tlv : List ℕ → ℕ → Result DerError (List ℕ × ℕ)
unfolding der_peek
der_read_tlv bytes pos = and_then (der_peek bytes pos) (λ t. ok (t.content, t.next))

unfoldable pub der_skip : List ℕ → ℕ → Result DerError ℕ
unfolding der_peek
der_skip bytes pos = and_then (der_peek bytes pos) (λ t. ok t.next)

unfoldable pub der_expect_sequence : List ℕ → Result DerError (List ℕ)
unfolding der_peek
der_expect_sequence bytes =
    and_then (der_peek bytes 0) (λ t. if t.tag == 0x30 then ok t.content else err not_a_sequence)
