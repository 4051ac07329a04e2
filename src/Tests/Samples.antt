-- ===== src/Tests/Samples.antt =====
-- Keys, texts and byte strings for the runs.
use crypto_kiddie.Prelude.{ℕ, ◌+◌, ◌*◌, ◌-◌, ◌%◌, List, [], ◌∷◌, map, range, refl, arith, IsArray}

abbrev pub sample_key : List ℕ
sample_key = range 1 32

abbrev pub sample_iv : List ℕ
sample_iv = range 1 8

abbrev pub sample_block : List ℕ
sample_block = 0x01 ∷ 0x23 ∷ 0x45 ∷ 0x67 ∷ 0x89 ∷ 0xab ∷ 0xcd ∷ 0xef ∷ []

pub sample_key-IsArray : IsArray 32 sample_key
sample_key-IsArray = record { size = refl; bytes = omega arith }

pub sample_block-IsArray : IsArray 8 sample_block
sample_block-IsArray = record { size = refl; bytes = omega arith }

-- The keys of the tests of src/gost_keywrap.rs.
abbrev pub kek : List ℕ
kek = map (λ i. (i * 7 + 3) % 256) (range 0 32)

abbrev pub cek : List ℕ
cek = map (λ i. 200 - i) (range 0 32)

abbrev pub ukm : List ℕ
ukm = 0x11 ∷ 0x22 ∷ 0x33 ∷ 0x44 ∷ 0x55 ∷ 0x66 ∷ 0x77 ∷ 0x88 ∷ []

pub kek-IsArray : IsArray 32 kek
kek-IsArray = record { size = refl; bytes = omega arith }

pub cek-IsArray : IsArray 32 cek
cek-IsArray = record { size = refl; bytes = omega arith }
