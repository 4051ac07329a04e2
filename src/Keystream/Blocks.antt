-- ===== src/Keystream/Blocks.antt =====
-- `apply` of src/gost28147.rs against the blocks of `next_block`.
use crypto_kiddie.Prelude.{
  ℕ, zero, suc, ◌+◌, ◌-◌, ◌*◌, ◌≤◌, ◌<◌, ◌≡◌, refl, sym, ap, ◌∙◌, arith, bit_xor, List, [], ◌∷◌,
  ◌++◌, length, get_or, drop, inl, inr, Bool-cases, true, ◌&&◌, ◌==◌, ==→eq, ==→ne,
}
use crypto_kiddie.Keystream.{CntKeystream, next_block, refill, apply_byte, apply, mesh_if_due, mesh}
use crypto_kiddie.Keystream.Apply.{xor_stream, next_block_keeps}

-- The gamma of the next `n` blocks, one behind the other.
unfoldable pub blocks : ℕ → CntKeystream → List ℕ
blocks zero s = []
blocks (suc n) s = (next_block s).1 ++ blocks n (next_block s).0

-- A block does not depend on the buffer.
next_block_buffer :
    (s : CntKeystream) (buf : List ℕ) (pos : ℕ)
    → next_block (record s { buf = buf; buf_pos = pos })
      ≡ (record (next_block s).0 { buf = buf; buf_pos = pos }, (next_block s).1)
unfolding next_block mesh_if_due mesh
next_block_buffer s buf pos = elim (Bool-cases (s.meshing && s.since_mesh == 1024)) [
  | inl due ↦ rw due refl
  | inr fresh ↦ rw fresh refl
]

blocks_buffer :
    (n : ℕ) (s : CntKeystream) (buf : List ℕ) (pos : ℕ)
    → blocks n (record s { buf = buf; buf_pos = pos }) ≡ blocks n s
unfolding blocks
blocks_buffer zero s buf pos = refl
blocks_buffer (suc n) s buf pos =
    ap (λ (r : CntKeystream × List ℕ). r.1 ++ blocks n r.0) (next_block_buffer s buf pos)
    ∙ ap (λ (g : List ℕ). (next_block s).1 ++ g) (blocks_buffer n (next_block s).0 buf pos)

drop_step : (xs : List ℕ) (i : ℕ) → i < length xs → drop i xs ≡ get_or xs i 0 ∷ drop (i + 1) xs
drop_step [] i h = absurd (omega arith)
drop_step (x ∷ xs) zero h = refl
drop_step (x ∷ xs) (suc i) h =
    drop_step xs i (omega arith)
    ∙ ap (λ (n : ℕ). get_or xs i 0 ∷ drop n (x ∷ xs)) {x = suc (i + 1)} (omega arith)

drop_end : (xs : List ℕ) (i : ℕ) → i ≡ length xs → drop i xs ≡ []
drop_end [] zero h = refl
drop_end [] (suc i) h = refl
drop_end (x ∷ xs) zero h = absurd (omega arith)
drop_end (x ∷ xs) (suc i) h = drop_end xs i (omega arith)

-- What a refill does to the gamma that is left: the buffer and `n` blocks before it are the buffer
-- and `m` blocks behind it.
record Refilled (s : CntKeystream) (n : ℕ) : Type 0 where
  m : ℕ
  same :
      drop s.buf_pos s.buf ++ blocks n s
      ≡ drop (refill s).buf_pos (refill s).buf ++ blocks m (refill s)
  left : length s.buf - s.buf_pos + 8 * n ≡ length (refill s).buf - (refill s).buf_pos + 8 * m
  inside : (refill s).buf_pos < length (refill s).buf

refill-Refilled :
    (s : CntKeystream) (n : ℕ)
    → s.buf_pos ≤ length s.buf
    → 0 < length s.buf - s.buf_pos + 8 * n
    → Refilled s n
unfolding refill blocks
refill-Refilled s n ready more = elim (Bool-cases (s.buf_pos == length s.buf)) [
  | inl empty ↦ emptied n more empty
  | inr full ↦ record {
    m = n;
    same = rw full refl;
    left = rw full refl;
    inside = rw full (omega (arith, ==→ne _ _ full, ready));
  }
]
  where
    emptied :
        (n : ℕ)
        → 0 < length s.buf - s.buf_pos + 8 * n
        → (s.buf_pos == length s.buf) ≡ true
        → Refilled s n
    emptied zero more empty = absurd (omega (arith, ==→eq _ _ empty))
    emptied (suc k) more empty =
        let end = ==→eq _ _ empty in
        let g = (next_block s).1 in
        let size = (next_block_keeps s).2.size in
        record {
          m = k;
          same = rw empty (
              ap (λ (d : List ℕ). d ++ blocks (suc k) s) (drop_end s.buf s.buf_pos end)
              ∙ ap (λ (r : List ℕ). g ++ r) (sym (blocks_buffer k (next_block s).0 g 0)));
          left = rw empty (omega (arith, end, size));
          inside = rw empty (omega (arith, size));
        }

-- What `apply` gives is the text `^` the rest of the buffer and the blocks that `next_block`
-- makes from there, for every number of blocks that is long enough. The position stands in the
-- buffer or at its end.
pub apply-blocks :
    (s : CntKeystream) (text : List ℕ) (n : ℕ)
    → s.buf_pos ≤ length s.buf
    → length text ≤ length s.buf - s.buf_pos + 8 * n
    → (apply s text).1 ≡ xor_stream text (drop s.buf_pos s.buf ++ blocks n s)
unfolding apply apply_byte xor_stream
apply-blocks s [] n ready enough = refl
apply-blocks s (b ∷ bs) n ready enough =
    let r = refill s in
    let filled = refill-Refilled s n ready (omega arith) in
    let next : CntKeystream = record r { buf_pos = r.buf_pos + 1 } in
    let later =
      apply-blocks next bs filled.m (omega (arith, filled.inside))
        (omega (arith, filled.inside, filled.left, enough)) in
    ap (λ (out : List ℕ). bit_xor b (get_or r.buf r.buf_pos 0) ∷ out)
      (later
        ∙ ap (λ (g : List ℕ). xor_stream bs (drop (r.buf_pos + 1) r.buf ++ g))
            (blocks_buffer filled.m r r.buf (r.buf_pos + 1)))
    ∙ ap (λ (g : List ℕ). xor_stream (b ∷ bs) (g ++ blocks filled.m r))
        (sym (drop_step r.buf r.buf_pos filled.inside))
    ∙ ap (xor_stream (b ∷ bs)) (sym filled.same)
