-- ===== src/KeyWrap/Ecb.antt =====
-- ECB over whole blocks: encryption and decryption undo one another, and keep the length.
use crypto_kiddie.Prelude.{
  ℕ, ◌%◌, ◌≡◌, ◌<◌, refl, ap, ap₂, ◌∙◌, arith, List, [], ◌∷◌, ◌++◌, flatten, map, length,
  chunks_exact, chunks_exact-cons, chunks_exact-short, block_induction, All-left, All-right,
  All-append, IsByte, IsBytes, IsArray, length-append,
}
use crypto_kiddie.Cipher.{new_gost, encrypt_block_le, decrypt_block_le}
use crypto_kiddie.Cipher.Blocks.{
  encrypt_block_le-IsArray, decrypt_block_le-IsArray, decrypt_block_le-encrypt_block_le,
  encrypt_block_le-decrypt_block_le,
}
use crypto_kiddie.KeyWrap.{encrypt_ecb, decrypt_ecb}

empty_of_short : (xs : List ℕ) → length xs < 8 → length xs % 8 ≡ 0 → xs ≡ []
empty_of_short [] h e = refl
empty_of_short (x ∷ xs) h e = absurd (omega arith)

-- A map over the blocks, for either direction.
module _ (f : List ℕ → List ℕ) where
  abbrev over_blocks : List ℕ → List ℕ
  over_blocks text = flatten (map f (chunks_exact 8 text))

  over_blocks-cons : (a b : List ℕ) → length a ≡ 8 → over_blocks (a ++ b) ≡ f a ++ over_blocks b
  unfolding flatten
  over_blocks-cons a b h = ap (λ (t : List (List ℕ)). flatten (map f t)) (chunks_exact-cons a b h)

module _ (f : List ℕ → List ℕ) (sized : (b : List ℕ) → IsArray 8 (f b)) where
  over_blocks-IsBytes : (text : List ℕ) → IsBytes (over_blocks f text)
  unfolding flatten
  over_blocks-IsBytes =
      block_induction (λ text. IsBytes (over_blocks f text))
        (λ text h. rw (chunks_exact-short text h) tt)
        (λ a b h ih.
          rw (over_blocks-cons f a b h)
            (All-append IsByte (f a) (over_blocks f b) (sized a).bytes ih))

  length-over_blocks :
      (text : List ℕ) → length text % 8 ≡ 0 → length (over_blocks f text) ≡ length text
  unfolding flatten chunks_exact
  length-over_blocks =
      block_induction (λ text. length text % 8 ≡ 0 → length (over_blocks f text) ≡ length text)
        (λ text h e. rw (empty_of_short text h e) refl)
        (λ a b h ih e. rw (over_blocks-cons f a b h) (
          length-append (f a) (over_blocks f b)
          ∙ omega
              (arith, (sized a).size, length-append a b, ih (omega (arith, length-append a b)))))

  -- Where `g` takes `f` back on a block it does so on any number of blocks.
  over_blocks_inverse :
      (g : List ℕ → List ℕ)
      → ((b : List ℕ) → IsArray 8 b → g (f b) ≡ b)
      → (text : List ℕ) → IsBytes text
      → length text % 8 ≡ 0
      → over_blocks g (over_blocks f text) ≡ text
  unfolding flatten chunks_exact
  over_blocks_inverse g inverse =
      block_induction
        (λ text. IsBytes text → length text % 8 ≡ 0 → over_blocks g (over_blocks f text) ≡ text)
        (λ text h bs e. rw (empty_of_short text h e) refl)
        (λ a b h ih bs e.
          ap (over_blocks g) (over_blocks-cons f a b h)
          ∙ over_blocks-cons g (f a) (over_blocks f b) (sized a).size
          ∙ ap₂ ◌++◌ (inverse a (record { size = h; bytes = All-left IsByte a b bs }))
              (ih (All-right IsByte a b bs) (omega (arith, length-append a b))))

module _ (key : List ℕ) where
  pub encrypt_ecb-IsArray :
      {n : ℕ} (text : List ℕ)
      → n % 8 ≡ 0
      → length text ≡ n
      → IsArray n (encrypt_ecb (new_gost key) text)
  unfolding encrypt_ecb
  encrypt_ecb-IsArray text e h = record {
    size =
        length-over_blocks (encrypt_block_le (new_gost key))
          (encrypt_block_le-IsArray (new_gost key)) text (ap (λ (t : ℕ). t % 8) h ∙ e)
        ∙ h;
    bytes =
        over_blocks-IsBytes (encrypt_block_le (new_gost key))
          (encrypt_block_le-IsArray (new_gost key)) text;
  }

  pub decrypt_ecb-IsArray :
      {n : ℕ} (text : List ℕ)
      → n % 8 ≡ 0
      → length text ≡ n
      → IsArray n (decrypt_ecb (new_gost key) text)
  unfolding decrypt_ecb
  decrypt_ecb-IsArray text e h = record {
    size =
        length-over_blocks (decrypt_block_le (new_gost key))
          (decrypt_block_le-IsArray (new_gost key)) text (ap (λ (t : ℕ). t % 8) h ∙ e)
        ∙ h;
    bytes =
        over_blocks-IsBytes (decrypt_block_le (new_gost key))
          (decrypt_block_le-IsArray (new_gost key)) text;
  }

  pub decrypt_ecb-encrypt_ecb :
      (text : List ℕ)
      → IsBytes text
      → length text % 8 ≡ 0
      → decrypt_ecb (new_gost key) (encrypt_ecb (new_gost key) text) ≡ text
  unfolding decrypt_ecb encrypt_ecb
  decrypt_ecb-encrypt_ecb =
      over_blocks_inverse (encrypt_block_le (new_gost key))
        (encrypt_block_le-IsArray (new_gost key)) (decrypt_block_le (new_gost key))
        (decrypt_block_le-encrypt_block_le key)

  pub encrypt_ecb-decrypt_ecb :
      (text : List ℕ)
      → IsBytes text
      → length text % 8 ≡ 0
      → encrypt_ecb (new_gost key) (decrypt_ecb (new_gost key) text) ≡ text
  unfolding decrypt_ecb encrypt_ecb
  encrypt_ecb-decrypt_ecb =
      over_blocks_inverse (decrypt_block_le (new_gost key))
        (decrypt_block_le-IsArray (new_gost key)) (encrypt_block_le (new_gost key))
        (encrypt_block_le-decrypt_block_le key)
