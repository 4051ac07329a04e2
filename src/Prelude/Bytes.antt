-- ===== src/Prelude/Bytes.antt =====
-- Bytes, and `to_le_bytes`, `from_le_bytes`, `to_be_bytes`, `from_be_bytes` of every width.
use Prim.Native.Nat.{ℕ, zero, suc, ◌+◌, ◌*◌, ◌/◌, ◌%◌, ◌^◌, ◌<◌, bit_xor}
use mathlib.Core.Path.{◌≡◌, refl, sym, ap, ◌∙◌, subst}
use mathlib.Core.List.{List, [], ◌∷◌}
use native.Mathlib.Nat.{pow-suc}
use native.Mathlib.Omega.{arith}
use crypto_kiddie.Prelude.Lists.{length, All}

abbrev pub IsByte : ℕ → Type 0
IsByte b = b < 256

-- A byte string, and one of a fixed length: `[u8]` and `[u8; n]`.
abbrev pub IsBytes : List ℕ → Type 0
IsBytes bs = All IsByte bs

pub record IsArray (n : ℕ) (bs : List ℕ) : Type 0 where
  pub size : length bs ≡ n
  pub bytes : IsBytes bs

abbrev pub IsU32 : ℕ → Type 0
IsU32 v = v < 2 ^ 32

-- `n` bytes of `v`, lowest first.
abbrev pub le_bytes : ℕ → ℕ → List ℕ
le_bytes zero v = []
le_bytes (suc n) v = v % 256 ∷ le_bytes n (v / 256)

abbrev pub le_value : List ℕ → ℕ
le_value [] = 0
le_value (b ∷ bs) = b + 256 * le_value bs

-- `n` bytes of `v`, highest first.
abbrev pub be_bytes : ℕ → ℕ → List ℕ
be_bytes zero v = []
be_bytes (suc n) v = v / 256 ^ n % 256 ∷ be_bytes n v

abbrev pub be_value : List ℕ → ℕ
be_value [] = 0
be_value (b ∷ bs) = b * 256 ^ length bs + be_value bs

pub length-le_bytes : (n v : ℕ) → length (le_bytes n v) ≡ n
length-le_bytes zero v = refl
length-le_bytes (suc n) v = ap suc (length-le_bytes n (v / 256))

pub le_bytes-IsBytes : (n v : ℕ) → IsBytes (le_bytes n v)
le_bytes-IsBytes zero v = tt
le_bytes-IsBytes (suc n) v = (omega arith, le_bytes-IsBytes n (v / 256))

pub le_bytes-IsArray : (n v : ℕ) → IsArray n (le_bytes n v)
le_bytes-IsArray n v = record { size = length-le_bytes n v; bytes = le_bytes-IsBytes n v }

pub length-be_bytes : (n v : ℕ) → length (be_bytes n v) ≡ n
length-be_bytes zero v = refl
length-be_bytes (suc n) v = ap suc (length-be_bytes n v)

pub be_bytes-IsBytes : (n v : ℕ) → IsBytes (be_bytes n v)
be_bytes-IsBytes zero v = tt
be_bytes-IsBytes (suc n) v = (omega arith, be_bytes-IsBytes n v)

-- Reading the bytes of a number that fits gives it back.
pub le_value-le_bytes : (n v : ℕ) → v < 256 ^ n → le_value (le_bytes n v) ≡ v
le_value-le_bytes zero v h = omega arith
le_value-le_bytes (suc n) v h =
    omega (arith, pow-suc 256 n, le_value-le_bytes n (v / 256) (omega (arith, pow-suc 256 n)))

pub le_bytes-le_value : (bs : List ℕ) → IsBytes bs → le_bytes (length bs) (le_value bs) ≡ bs
le_bytes-le_value [] h = refl
le_bytes-le_value (b ∷ bs) h =
    let low : (b + 256 * le_value bs) % 256 ≡ b = omega arith in
    let high : (b + 256 * le_value bs) / 256 ≡ le_value bs = omega arith in
    rw (low, high) (ap (λ (t : List ℕ). b ∷ t) (le_bytes-le_value bs h.1))

pub le_value-lt : (bs : List ℕ) → IsBytes bs → le_value bs < 256 ^ length bs
le_value-lt [] h = omega arith
le_value-lt (b ∷ bs) h = omega (arith, pow-suc 256 (length bs), le_value-lt bs h.1)

-- The bytes of an array as a word, and back.
pub le_bytes-le_value_array : (n : ℕ) (bs : List ℕ) → IsArray n bs → le_bytes n (le_value bs) ≡ bs
le_bytes-le_value_array n bs a =
    ap (λ (t : ℕ). le_bytes t (le_value bs)) (sym a.size) ∙ le_bytes-le_value bs a.bytes

pub le_value-IsU32 : (bs : List ℕ) → IsArray 4 bs → IsU32 (le_value bs)
le_value-IsU32 bs a = subst (λ (t : ℕ). le_value bs < 256 ^ t) a.size (le_value-lt bs a.bytes)

-- `a[i] ^ b[i]` for two arrays of one length.
abbrev pub xor_bytes : List ℕ → List ℕ → List ℕ
xor_bytes [] ys = []
xor_bytes (x ∷ xs) [] = []
xor_bytes (x ∷ xs) (y ∷ ys) = bit_xor x y ∷ xor_bytes xs ys

-- The lengths that the formats write in two and in three bytes.
pub be_value-be_bytes_two : (v : ℕ) → v < 2 ^ 16 → be_value (be_bytes 2 v) ≡ v
be_value-be_bytes_two v h = omega arith

pub be_value-be_bytes_three : (v : ℕ) → v < 2 ^ 24 → be_value (be_bytes 3 v) ≡ v
be_value-be_bytes_three v h = omega arith
