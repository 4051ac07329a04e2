-- ===== src/Card/Token/Header.antt =====
-- The header that the token's files are searched for, against the DER reader of src/gost_login.rs.
use crypto_kiddie.Prelude.{
  ℕ, zero, suc, ◌+◌, ◌*◌, ◌≤◌, ◌<◌, ◌≡◌, refl, sym, subst, ap, ◌∙◌, arith, bit_and, List, [], ◌∷◌,
  ◌++◌, Bool, true, false, ◌&&◌, ◌||◌, not, ltb, le→ltb, ◌==◌, ==→eq, ◌⊎◌, Bool-cases, inl, inr,
  some, some_injective, length, take, drop, length-take, take-append-drop, IsBytes, Result, ok,
}
use crypto_kiddie.Der.{Tlv, DerError, der_peek, read_length, long_length}
use crypto_kiddie.Der.RoundTrip.{shifted, long_length_lem}
use crypto_kiddie.Card.Token.{fold_len, der_sequence_total_len}

abbrev same : Bool → Bool → Bool
same true b = b
same false b = not b

abbrev holds_below : ℕ → (ℕ → Bool) → Bool
holds_below zero test = true
holds_below (suc n) test = test n && holds_below n test

same_eq : (a b : Bool) → same a b ≡ true → a ≡ b
same_eq true true h = refl
same_eq true false h = absurd cc
same_eq false true h = absurd cc
same_eq false false h = refl

and_parts : (a b : Bool) → (a && b) ≡ true → (a ≡ true) × (b ≡ true)
and_parts true b h = (refl, h)
and_parts false b h = absurd cc

holds_at : (n : ℕ) (test : ℕ → Bool) → holds_below n test ≡ true → (i : ℕ) → i < n → test i ≡ true
holds_at zero test h i below = absurd (omega arith)
holds_at (suc n) test h i below =
    let parts = and_parts (test n) (holds_below n test) h in
    elim (Bool-cases (i == n)) [
      | inl last ↦ subst (λ (k : ℕ). test k ≡ true) (sym (==→eq i n last)) parts.0
      | inr inner ↦ holds_at n test parts.1 i (ground arith)
    ]

-- The highest bit of a byte.
pub high_bit : (b : ℕ) → b < 256 → (bit_and b 0x80 == 0) ≡ ltb b 0x80
high_bit b h =
    same_eq (bit_and b 0x80 == 0) (ltb b 0x80)
      (holds_at 256 (λ b. same (bit_and b 0x80 == 0) (ltb b 0x80)) refl b h)

pub fold_len-shifted : (bs : List ℕ) (acc : ℕ) → fold_len acc bs ≡ shifted acc bs
unfolding fold_len
fold_len-shifted [] acc = refl
fold_len-shifted (b ∷ bs) acc = fold_len-shifted bs (acc * 256 + b)

-- A sequence of `total` bytes at the front.
abbrev pub IsSequence : List ℕ → ℕ → Type 0
IsSequence bytes total =
    (content : List ℕ) × (der_peek bytes 0
      ≡ ok (record { tag = 0x30; content = content; next = total }))

read_header :
    (len_byte : ℕ) (rest : List ℕ) (len header total : ℕ)
    → read_length (0x30 ∷ len_byte ∷ rest) 0 len_byte ≡ ok (len, header)
    → total ≡ 0 + header + len
    → total ≤ 2 + length rest
    → IsSequence (0x30 ∷ len_byte ∷ rest) total
unfolding der_peek
read_header len_byte rest len header total found sum fits =
    let bytes = 0x30 ∷ len_byte ∷ rest in
    (
      take len (drop (0 + header) bytes),
      rw (found, le→ltb (length bytes) (0 + header + len) (omega arith))
          (ap
            (λ (n : ℕ).
              let r : Result DerError Tlv =
                ok
                  (record { tag = 0x30; content = take len (drop (0 + header) bytes); next = n }) in
              r)
            (sym sum)),
    )

short_header :
    (len_byte : ℕ) (rest : List ℕ)
    → ltb len_byte 0x80 ≡ true
    → 2 + len_byte ≤ 2 + length rest
    → IsSequence (0x30 ∷ len_byte ∷ rest) (2 + len_byte)
unfolding read_length
short_header len_byte rest h fits =
    read_header len_byte rest len_byte 2 (2 + len_byte) (rw h refl) (omega arith) fits

-- The length bytes stand behind the first two.
long_length-fold_len :
    (a b : ℕ) (rest : List ℕ) (num : ℕ)
    → num ≤ length rest
    → long_length (a ∷ b ∷ rest) (0 + 2) num 0 ≡ ok (fold_len 0 (take num rest))
long_length-fold_len a b rest num fits =
    let front = take num rest in
    let split = take-append-drop num rest in
    let count : length front ≡ num = length-take num rest fits in
    let read = long_length_lem front (a ∷ b ∷ []) (drop num rest) (0 + 2) 0 (omega arith) in
    ap (λ (t : List ℕ). long_length (a ∷ b ∷ t) (0 + 2) num 0) (sym split)
    ∙ ap (λ (k : ℕ). long_length (a ∷ b ∷ (front ++ drop num rest)) (0 + 2) k 0) (sym count)
    ∙ read
    ∙ ap (λ (n : ℕ). let r : Result DerError ℕ = ok n in r) (sym (fold_len-shifted front 0))

long_header :
    (len_byte : ℕ) (rest : List ℕ)
    → (let num = bit_and len_byte 0x7f in
        ltb len_byte 0x80 ≡ false
        → ((num == 0) || ltb 4 num) ≡ false
        → num ≤ length rest
        → 2 + num + fold_len 0 (take num rest) ≤ 2 + length rest
        → IsSequence (0x30 ∷ len_byte ∷ rest) (2 + num + fold_len 0 (take num rest)))
unfolding read_length
long_header len_byte rest h known few fits =
    let num = bit_and len_byte 0x7f in
    let len = fold_len 0 (take num rest) in
    read_header len_byte rest len (2 + num) (2 + num + len)
      (rw (h, known, long_length-fold_len 0x30 len_byte rest num few) refl) (omega arith) fits

known_count :
    (num size : ℕ)
    → (((num == 0) || ltb 4 num) || ltb size (2 + num)) ≡ false
    → (((num == 0) || ltb 4 num) ≡ false) × (2 + num ≤ size)
known_count num size h = ground arith

-- What a length that was found says of the first two bytes and the rest.
total_cases :
    (tag len_byte : ℕ) (rest : List ℕ) (total : ℕ)
    → len_byte < 256
    → der_sequence_total_len (tag ∷ len_byte ∷ rest) ≡ some total
    → let num = bit_and len_byte 0x7f in
      (tag ≡ 0x30)
      × (((ltb len_byte 0x80 ≡ true) × (2 + len_byte ≡ total))
          ⊎ ((ltb len_byte 0x80 ≡ false)
              × (((num == 0) || ltb 4 num) ≡ false)
              × (num ≤ length rest)
              × (2 + num + fold_len 0 (take num rest) ≡ total)))
unfolding der_sequence_total_len
total_cases tag len_byte rest total byte e =
    let num = bit_and len_byte 0x7f in
    let size = length (tag ∷ len_byte ∷ rest) in
    let long : ltb size 2 ≡ false = le→ltb size 2 (omega arith) in
    let bit = high_bit len_byte byte in
    elim (Bool-cases (tag == 0x30)) [
      | inr other ↦ absurd (cc (rw (long, other) at e))
      | inl is ↦ elim (Bool-cases (ltb len_byte 0x80)) [
        | inl short ↦
            (==→eq tag 0x30 is, inl (short, some_injective (rw (long, is, bit, short) at e)))
        | inr more ↦ elim (Bool-cases (((num == 0) || ltb 4 num) || ltb size (2 + num))) [
          | inl unknown ↦ absurd (cc (rw (long, is, bit, more, unknown) at e))
          | inr known ↦
              let parts = known_count num size known in
              (
                ==→eq tag 0x30 is,
                inr (
                  more,
                  parts.0,
                  omega (arith, parts.1),
                  some_injective (rw (long, is, bit, more, known) at e),
                ),
              )
        ]
      ]
    ]

-- Where a file of bytes is found to go on with a sequence that lies within it, the DER reader of the
-- login finds a sequence that ends at the same place.
pub der_sequence_total_len-IsSequence :
    (bytes : List ℕ) (total : ℕ)
    → IsBytes bytes
    → der_sequence_total_len bytes ≡ some total
    → total ≤ length bytes
    → IsSequence bytes total
unfolding der_sequence_total_len
der_sequence_total_len-IsSequence [] total valid e fits = absurd cc
der_sequence_total_len-IsSequence (tag ∷ []) total valid e fits = absurd cc
der_sequence_total_len-IsSequence (tag ∷ len_byte ∷ rest) total valid e fits =
    let cases = total_cases tag len_byte rest total valid.1.0 e in
    elim cases.1 [
      | inl (short, is) ↦ rw (cases.0, ← is) (short_header len_byte rest short (omega (arith)))
      | inr (more, known, few, is) ↦
          rw (cases.0, ← is) (long_header len_byte rest more known few (omega (arith)))
    ]
