-- ===== src/Card/Encoding.antt =====
-- The blocks on the bus: what the reader sends is parsed, and what is sent carries the APDU.
use crypto_kiddie.Prelude.{
  ℕ, suc, ◌+◌, ◌^◌, ◌≤◌, ◌<◌, ◌≡◌, ◌⊎◌, inl, inr, Bool-cases, ltb, ltb→lt, ltb→le, refl, arith,
  Option, none, some, if◌then◌else◌, ◌==◌, eq→==, ne→==, append-nil, take, get_or, List, [], ◌∷◌,
  ◌++◌, length, le_bytes, le_value-le_bytes, take-append, length-append, le→ltb, ok, err,
}
use crypto_kiddie.Card.Apdu.{CommandApdu, new, data_field, le_field, apdu_bytes, extended_length}
use crypto_kiddie.Card.Ccid.{RdrDataBlock, parse_data_block, rdr_to_pc_datablock}

-- How a card reads a short command behind its header (ISO 7816-4): nothing, the expected length
-- alone, the data behind their length, or both.
unfoldable pub read_body : CommandApdu → List ℕ → Option CommandApdu
read_body header [] = some header
read_body header (le ∷ []) = some (record header { le = some le })
read_body header (lc ∷ b ∷ rest) =
    if length (b ∷ rest) == lc
    then some (record header { payload = b ∷ rest })
    else (if length (b ∷ rest) == lc + 1
        then some
            (record header { payload = take lc (b ∷ rest); le = some (get_or (b ∷ rest) lc 0) })
        else none)

unfoldable pub read_apdu : List ℕ → Option CommandApdu
unfolding read_body
read_apdu (cla ∷ ins ∷ p1 ∷ p2 ∷ body) = read_body (new cla ins p1 p2) body
read_apdu _ = none

get_or-last : (xs : List ℕ) (x : ℕ) → get_or (xs ++ (x ∷ [])) (length xs) 0 ≡ x
get_or-last [] x = refl
get_or-last (y ∷ xs) x = get_or-last xs x

read_body-fields :
    (cla ins p1 p2 : ℕ) (payload : List ℕ) (le : Option ℕ)
    → read_body (new cla ins p1 p2) (data_field payload ++ le_field le)
      ≡ some (record (new cla ins p1 p2) { payload = payload; le = le })
unfolding read_body
read_body-fields cla ins p1 p2 [] none = refl
read_body-fields cla ins p1 p2 [] (some le) = refl
read_body-fields cla ins p1 p2 (b ∷ bs) none =
    rw (append-nil bs, eq→== (suc (length bs)) (suc (length bs)) refl) refl
read_body-fields cla ins p1 p2 (b ∷ bs) (some le) =
    let size = length-append bs (le ∷ []) in
    rw
      (
        ne→== (suc (length (bs ++ (le ∷ [])))) (suc (length bs)) (λ e. omega arith),
        eq→== (suc (length (bs ++ (le ∷ [])))) (suc (length bs) + 1) (omega arith),
        take-append bs (le ∷ []) (length bs) refl,
        get_or-last bs le,
      )
      refl

-- A command is refused where its data is longer than one byte of length can say, and becomes bytes
-- where it is not: bytes that a card reads back as that command, with its data and its expected
-- length.
pub read_apdu-apdu_bytes :
    (apdu : CommandApdu)
    → ((apdu_bytes apdu ≡ err extended_length) × (256 ≤ length apdu.payload))
      ⊎ ((bytes : List ℕ) × (length apdu.payload < 256)
          × (apdu_bytes apdu ≡ ok bytes)
          × (read_apdu bytes ≡ some apdu))
unfolding apdu_bytes read_apdu
read_apdu-apdu_bytes apdu = elim (Bool-cases (ltb 255 (length apdu.payload))) [
  | inl long ↦ inl (rw long refl, omega (arith, ltb→lt _ _ long))
  | inr fits ↦ inr (
    apdu.cla ∷ apdu.ins ∷ apdu.p1 ∷ apdu.p2 ∷ (data_field apdu.payload ++ le_field apdu.le),
    omega (arith, ltb→le _ _ fits),
    rw fits refl,
    read_body-fields apdu.cla apdu.ins apdu.p1 apdu.p2 apdu.payload apdu.le,
  )
]

-- The bytes of a data block, as the reader writes them.
abbrev pub block_bytes : RdrDataBlock → List ℕ
block_bytes b =
    rdr_to_pc_datablock
    ∷ (le_bytes 4 (length b.payload)
        ++ (b.slot ∷ b.sequence ∷ b.status ∷ b.error ∷ b.chain_param ∷ b.payload))

-- A data block is parsed back from its bytes, whatever the transfer carries behind it, where the
-- payload's length fits the header's four bytes.
pub parse_data_block-block_bytes :
    (b : RdrDataBlock) (rest : List ℕ)
    → length b.payload < 256 ^ 4
    → parse_data_block (block_bytes b ++ rest) ≡ ok b
unfolding parse_data_block
parse_data_block-block_bytes b rest h =
    let whole = block_bytes b ++ rest in
    let size : length whole ≡ 10 + length (b.payload ++ rest) = omega arith in
    let fits = length-append b.payload rest in
    rw
      (
        le→ltb (length whole) 10 (omega arith),
        le_value-le_bytes 4 (length b.payload) h,
        le→ltb (length whole) (10 + length b.payload) (omega arith),
        take-append b.payload rest (length b.payload) refl,
      )
      refl
