-- ===== src/Der/RoundTrip.antt =====
-- Reading what the encoder wrote, wherever it stands in the bytes.
use crypto_kiddie.Prelude.{
  ℕ, zero, suc, ◌+◌, ◌*◌, ◌/◌, ◌%◌, ◌^◌, ◌≤◌, ◌<◌, ◌≡◌, refl, sym, ap, ◌∙◌, arith, bit_and, bit_or,
  List, [], ◌∷◌, ◌++◌, reverse, ltb, ◌==◌, some, length, get_elem?, length-append, take-append,
  drop-append, append_assoc, reverse-append, le→ltb, lt→ltb, ltb→lt, ltb→le, Bool-cases, inl, inr,
  ne→==, eq→==, ok, ==→eq,
}
use native.Mathlib.Nat.{pow-suc}
use crypto_kiddie.Der.{low_bytes, der_len, der_tlv, long_length, read_length, der_peek}

get_elem?-append :
    (pre rest : List ℕ) (x n : ℕ) → n ≡ length pre → get_elem? (pre ++ (x ∷ rest)) n ≡ some x
get_elem?-append [] rest x zero h = refl
get_elem?-append [] rest x (suc n) h = absurd (omega arith)
get_elem?-append (p ∷ pre) rest x zero h = absurd (omega arith)
get_elem?-append (p ∷ pre) rest x (suc n) h = get_elem?-append pre rest x n (omega arith)

-- What a loop over big-endian digits makes of an accumulator.
abbrev pub shifted : ℕ → List ℕ → ℕ
shifted acc [] = acc
shifted acc (b ∷ bs) = shifted (acc * 256 + b) bs

pub long_length_lem :
    (bs pre rest : List ℕ) (at acc : ℕ)
    → at ≡ length pre
    → long_length (pre ++ (bs ++ rest)) at (length bs) acc ≡ ok (shifted acc bs)
unfolding long_length
long_length_lem [] pre rest at acc h = refl
long_length_lem (b ∷ bs) pre rest at acc h =
    let next : long_length (pre ++ ((b ∷ bs) ++ rest)) (at + 1) (length bs) (acc * 256 + b)
        ≡ ok (shifted (acc * 256 + b) bs) =
      ap (λ (t : List ℕ). long_length t (at + 1) (length bs) (acc * 256 + b))
        (sym (append_assoc pre (b ∷ []) (bs ++ rest)))
      ∙ long_length_lem bs (pre ++ (b ∷ [])) rest (at + 1) (acc * 256 + b)
          (omega (arith, length-append pre (b ∷ []))) in
    rw (get_elem?-append pre (bs ++ rest) b at h, next) refl

shifted-append : (xs ys : List ℕ) (acc : ℕ) → shifted acc (xs ++ ys) ≡ shifted (shifted acc xs) ys
shifted-append [] ys acc = refl
shifted-append (x ∷ xs) ys acc = shifted-append xs ys (acc * 256 + x)

pub length-reverse : (xs : List ℕ) → length (reverse xs) ≡ length xs
unfolding reverse
length-reverse [] = refl
length-reverse (x ∷ xs) =
    ap length (reverse-append (x ∷ []) xs)
    ∙ omega (arith, length-append (reverse xs) (x ∷ []), length-reverse xs)

shifted-reverse_cons :
    (x : ℕ) (xs : List ℕ) → shifted 0 (reverse (x ∷ xs)) ≡ shifted 0 (reverse xs) * 256 + x
unfolding reverse
shifted-reverse_cons x xs =
    ap (shifted 0) (reverse-append (x ∷ []) xs) ∙ shifted-append (reverse xs) (x ∷ []) 0

pub low_bytes_lem : (rounds n : ℕ) → n < 256 ^ rounds → shifted 0 (reverse (low_bytes rounds n)) ≡ n
unfolding low_bytes reverse
low_bytes_lem zero n h = omega arith
low_bytes_lem (suc rounds) n h = elim (Bool-cases (n == 0)) [
  | inl done ↦ rw done (sym (==→eq n 0 done))
  | inr more ↦ rw more (
      shifted-reverse_cons (n % 256) (low_bytes rounds (n / 256))
      ∙ omega (
        arith,
        pow-suc 256 rounds,
        low_bytes_lem rounds (n / 256) (omega (arith, pow-suc 256 rounds)),
      ))
]

pub low_bytes_count : (rounds count n : ℕ) → n < 256 ^ count → length (low_bytes rounds n) ≤ count
unfolding low_bytes
low_bytes_count zero count n h = omega arith
low_bytes_count (suc rounds) zero n h = rw (eq→== n 0 (omega arith)) (omega arith)
low_bytes_count (suc rounds) (suc count) n h = elim (Bool-cases (n == 0)) [
  | inl done ↦ rw done (omega arith)
  | inr more ↦
      let rest = low_bytes_count rounds count (n / 256) (omega (arith, pow-suc 256 count)) in
      rw more (omega (arith, rest))
]

pub low_bytes_some : (rounds n : ℕ) → 1 ≤ n → 1 ≤ length (low_bytes (suc rounds) n)
unfolding low_bytes
low_bytes_some rounds n h = rw (ne→== n 0 (λ e. omega arith)) (omega arith)

-- The byte before a long length of one to four bytes.
pub long_mark :
    (k : ℕ) → 1 ≤ k → k ≤ 4 → (bit_and (bit_or 0x80 k) 0x7f ≡ k) × (0x80 ≤ bit_or 0x80 k)
long_mark zero p q = absurd (omega arith)
long_mark (suc zero) p q = (refl, omega arith)
long_mark (suc (suc zero)) p q = (refl, omega arith)
long_mark (suc (suc (suc zero))) p q = (refl, omega arith)
long_mark (suc (suc (suc (suc zero)))) p q = (refl, omega arith)
long_mark (suc (suc (suc (suc (suc k))))) p q = absurd (omega arith)

read_length_short : (bytes : List ℕ) (pos n : ℕ) → n < 0x80 → read_length bytes pos n ≡ ok (n, 2)
unfolding read_length
read_length_short bytes pos n h = rw (lt→ltb n 0x80 h) refl

read_length_long :
    (bytes : List ℕ) (pos k n : ℕ)
    → 1 ≤ k
    → k ≤ 4
    → long_length bytes (pos + 2) k 0 ≡ ok n
    → read_length bytes pos (bit_or 0x80 k) ≡ ok (n, 2 + k)
unfolding read_length
read_length_long bytes pos k n p q e =
    let mark = long_mark k p q in
    rw (le→ltb (bit_or 0x80 k) 0x80 mark.1, mark.0, ne→== k 0 (λ z. omega arith), le→ltb 4 k q, e)
      refl

-- Where the tag, the length and the content stand, the reader finds them.
peek_of :
    (front content rest : List ℕ) (pos tag len_byte header : ℕ)
    → get_elem? (front ++ (content ++ rest)) pos ≡ some tag
    → get_elem? (front ++ (content ++ rest)) (pos + 1) ≡ some len_byte
    → read_length (front ++ (content ++ rest)) pos len_byte ≡ ok (length content, header)
    → pos + header ≡ length front
    → der_peek (front ++ (content ++ rest)) pos
      ≡ ok (record { tag = tag; content = content; next = pos + header + length content })
unfolding der_peek
peek_of front content rest pos tag len_byte header a b l h =
    let bytes = front ++ (content ++ rest) in
    let fits : pos + header + length content ≤ length bytes =
      omega (arith, length-append front (content ++ rest), length-append content rest) in
    rw
      (
        a,
        b,
        l,
        le→ltb (length bytes) (pos + header + length content) fits,
        drop-append front (content ++ rest) (pos + header) h,
        take-append content rest (length content) refl,
      )
      refl

-- The same, with the tag and the length behind `pre`.
peek_at :
    (pre len_rest content rest : List ℕ) (tag len_byte : ℕ)
    → (let front = pre ++ (tag ∷ len_byte ∷ len_rest) in
        read_length (front ++ (content ++ rest)) (length pre) len_byte
        ≡ ok (length content, 2 + length len_rest))
    → der_peek (pre ++ ((tag ∷ ((len_byte ∷ len_rest) ++ content)) ++ rest)) (length pre)
      ≡ ok (record {
        tag = tag;
        content = content;
        next = length pre + (2 + length len_rest) + length content;
      })
peek_at pre len_rest content rest tag len_byte l =
    let head = tag ∷ len_byte ∷ len_rest in
    let tail = len_rest ++ (content ++ rest) in
    let whole : (pre ++ head) ++ (content ++ rest) ≡ pre ++ (tag ∷ len_byte ∷ tail) =
      append_assoc pre head (content ++ rest) in
    let shape : pre ++ ((tag ∷ ((len_byte ∷ len_rest) ++ content)) ++ rest)
        ≡ (pre ++ head) ++ (content ++ rest) =
      ap (λ (t : List ℕ). pre ++ (tag ∷ len_byte ∷ t)) (append_assoc len_rest content rest)
      ∙ sym whole in
    let second : get_elem? (pre ++ (tag ∷ len_byte ∷ tail)) (length pre + 1) ≡ some len_byte =
      ap (λ (t : List ℕ). get_elem? t (length pre + 1))
        (sym (append_assoc pre (tag ∷ []) (len_byte ∷ tail)))
      ∙ get_elem?-append (pre ++ (tag ∷ [])) tail len_byte (length pre + 1)
          (sym (length-append pre (tag ∷ []))) in
    ap (λ (t : List ℕ). der_peek t (length pre)) shape
    ∙ peek_of (pre ++ head) content rest (length pre) tag len_byte (2 + length len_rest)
        (ap (λ (t : List ℕ). get_elem? t (length pre)) whole
          ∙ get_elem?-append pre (len_byte ∷ tail) tag (length pre) refl)
        (ap (λ (t : List ℕ). get_elem? t (length pre + 1)) whole ∙ second) l
        (omega (arith, length-append pre head))

pub der_len_short : (n : ℕ) → n < 0x80 → der_len n ≡ n ∷ []
unfolding der_len
der_len_short n h = rw (lt→ltb n 0x80 h) refl

pub der_len_long :
    (n : ℕ)
    → 0x80 ≤ n
    → (let bytes = reverse (low_bytes 8 n) in der_len n ≡ bit_or 0x80 (length bytes) ∷ bytes)
unfolding der_len
der_len_long n h = rw (le→ltb n 0x80 h) refl

-- The same, for the encoder's own length.
tlv_at :
    (pre len_rest content rest : List ℕ) (tag len_byte : ℕ)
    → der_len (length content) ≡ len_byte ∷ len_rest
    → (let front = pre ++ (tag ∷ len_byte ∷ len_rest) in
        read_length (front ++ (content ++ rest)) (length pre) len_byte
        ≡ ok (length content, 2 + length len_rest))
    → der_peek (pre ++ (der_tlv tag content ++ rest)) (length pre)
      ≡ ok (record {
        tag = tag;
        content = content;
        next = length pre + length (der_tlv tag content);
      })
unfolding der_tlv
tlv_at pre len_rest content rest tag len_byte e l =
    let next : length pre + length (tag ∷ ((len_byte ∷ len_rest) ++ content))
        ≡ length pre + (2 + length len_rest) + length content =
      omega (arith, length-append len_rest content) in
    rw (e, next) (peek_at pre len_rest content rest tag len_byte l)

-- The reader of the login finds what the encoder of the key transport wrote, wherever it stands
-- and whatever follows it: its tag, its content and the position behind it. The content's length
-- has up to four bytes, which is what the reader takes.
pub der_peek-der_tlv :
    (pre content rest : List ℕ) (tag : ℕ)
    → length content < 256 ^ 4
    → der_peek (pre ++ (der_tlv tag content ++ rest)) (length pre)
      ≡ ok (record {
        tag = tag;
        content = content;
        next = length pre + length (der_tlv tag content);
      })
der_peek-der_tlv pre content rest tag h = elim (Bool-cases (ltb (length content) 0x80)) [
  | inl short ↦
      let below = ltb→lt _ _ short in
      tlv_at pre [] content rest tag (length content) (der_len_short (length content) below)
        (read_length_short _ (length pre) (length content) below)
  | inr long ↦
      let above = ltb→le _ _ long in
      let bytes = reverse (low_bytes 8 (length content)) in
      let head = tag ∷ bit_or 0x80 (length bytes) ∷ [] in
      let count : length bytes ≡ length (low_bytes 8 (length content)) = length-reverse _ in
      let some_bytes = low_bytes_some 7 (length content) (omega arith) in
      let few_bytes = low_bytes_count 8 4 (length content) h in
      let value = low_bytes_lem 8 (length content) (omega arith) in
      let read =
        long_length_lem bytes (pre ++ head) (content ++ rest) (length pre + 2) 0
          (omega (arith, length-append pre head)) in
      tlv_at pre bytes content rest tag (bit_or 0x80 (length bytes))
        (der_len_long (length content) above)
        (read_length_long _ (length pre) (length bytes) (length content) (omega arith) (omega arith)
          (ap (λ (t : List ℕ). long_length t (length pre + 2) (length bytes) 0)
              (append_assoc pre (tag ∷ bit_or 0x80 (length bytes) ∷ bytes) (content ++ rest)
                ∙ sym (append_assoc pre head (bytes ++ (content ++ rest))))
            ∙ read
            ∙ ap ok value))
]
