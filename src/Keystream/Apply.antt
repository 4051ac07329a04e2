-- ===== src/Keystream/Apply.antt =====
-- `apply`: what it does to the data and to the state.
use crypto_kiddie.Prelude.{
  ℕ, zero, suc, ◌+◌, ◌≡◌, refl, sym, ap, ap₂, ◌∙◌, arith, bit_xor, xor_cancel, List, [], ◌∷◌,
  length, get_or, inl, inr, Bool-cases, ◌==◌, IsArray, ◌&&◌,
}
use crypto_kiddie.Cipher.Blocks.{encrypt_block_le-IsArray}
use crypto_kiddie.Keystream.{CntKeystream, next_block, refill, apply, mesh_if_due, mesh}

-- The state after one more byte; the byte itself plays no part.
unfoldable pub advance : CntKeystream → CntKeystream
advance s = let s' = refill s in record s' { buf_pos = s'.buf_pos + 1 }

unfoldable pub gamma_byte : CntKeystream → ℕ
gamma_byte s = let s' = refill s in get_or s'.buf s'.buf_pos 0

-- The gamma as a stream of its own: the next `n` bytes, and the state behind them.
unfoldable pub gamma : ℕ → CntKeystream → List ℕ
gamma zero s = []
gamma (suc n) s = gamma_byte s ∷ gamma n (advance s)

unfoldable pub advance_by : ℕ → CntKeystream → CntKeystream
advance_by zero s = s
advance_by (suc n) s = advance_by n (advance s)

-- xor of two byte strings of one length
unfoldable pub xor_stream : List ℕ → List ℕ → List ℕ
xor_stream [] ks = []
xor_stream (b ∷ bs) [] = []
xor_stream (b ∷ bs) (k ∷ ks) = bit_xor b k ∷ xor_stream bs ks

-- `apply` is `^` with the gamma, and the state that it leaves depends on the length alone.
pub apply-gamma :
    (s : CntKeystream) (text : List ℕ)
    → apply s text ≡ (advance_by (length text) s, xor_stream text (gamma (length text) s))
unfolding apply advance_by xor_stream gamma advance gamma_byte
apply-gamma s [] = refl
apply-gamma s (b ∷ bs) =
    ap
      (λ (r : CntKeystream × List ℕ).
        let out : CntKeystream × List ℕ = (r.0, bit_xor b (gamma_byte s) ∷ r.1) in out)
      (apply-gamma (advance s) bs)

length-gamma : (n : ℕ) (s : CntKeystream) → length (gamma n s) ≡ n
unfolding gamma
length-gamma zero s = refl
length-gamma (suc n) s = ap suc (length-gamma n (advance s))

length-xor_stream : (xs ks : List ℕ) → length ks ≡ length xs → length (xor_stream xs ks) ≡ length xs
unfolding xor_stream
length-xor_stream [] ks h = refl
length-xor_stream (x ∷ xs) [] h = absurd (omega arith)
length-xor_stream (x ∷ xs) (k ∷ ks) h = ap suc (length-xor_stream xs ks (omega arith))

xor_stream_cancel : (xs ks : List ℕ) → length ks ≡ length xs → xor_stream (xor_stream xs ks) ks ≡ xs
unfolding xor_stream
xor_stream_cancel [] ks h = refl
xor_stream_cancel (x ∷ xs) [] h = absurd (omega arith)
xor_stream_cancel (x ∷ xs) (k ∷ ks) h =
    ap₂ ◌∷◌ (xor_cancel x k) (xor_stream_cancel xs ks (omega arith))

pub length-apply : (s : CntKeystream) (text : List ℕ) → length (apply s text).1 ≡ length text
length-apply s text =
    ap (λ (r : CntKeystream × List ℕ). length r.1) (apply-gamma s text)
    ∙ length-xor_stream text _ (length-gamma _ s)

-- Decryption is encryption again from the same state: the text comes back, and both leave the
-- keystream in the same state.
pub apply-apply :
    (s : CntKeystream) (text : List ℕ) → apply s (apply s text).1 ≡ ((apply s text).0, text)
apply-apply s text =
    let n = length text in
    let out : CntKeystream × List ℕ = (advance_by n s, text) in
    apply-gamma s (apply s text).1
    ∙ ap
        (λ (k : ℕ).
          let r : CntKeystream × List ℕ =
            (advance_by k s, xor_stream (apply s text).1 (gamma k s)) in
          r)
        (length-apply s text)
    ∙ ap
        (λ (r : CntKeystream × List ℕ).
          let q : CntKeystream × List ℕ = (advance_by n s, xor_stream r.1 (gamma n s)) in q)
        (apply-gamma s text)
    ∙ ap (λ (t : List ℕ). let q : CntKeystream × List ℕ = (advance_by n s, t) in q)
        (xor_stream_cancel text (gamma n s) (length-gamma n s))
    ∙ ap (λ (r : CntKeystream × List ℕ). let q : CntKeystream × List ℕ = (r.0, text) in q)
        (sym (apply-gamma s text))

-- A block is made without the buffer, and has eight bytes.
pub next_block_keeps :
    (s : CntKeystream)
    → ((next_block s).0.buf ≡ s.buf)
      × ((next_block s).0.buf_pos ≡ s.buf_pos)
      × IsArray 8 (next_block s).1
unfolding next_block mesh_if_due mesh
next_block_keeps s = elim (Bool-cases (s.meshing && s.since_mesh == 1024)) [
  | inl due ↦ rw due (refl, refl, encrypt_block_le-IsArray _ _)
  | inr fresh ↦ rw fresh (refl, refl, encrypt_block_le-IsArray _ _)
]
