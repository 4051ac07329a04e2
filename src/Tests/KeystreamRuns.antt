-- ===== src/Tests/KeystreamRuns.antt =====
-- The CNT keystream at concrete inputs.
use crypto_kiddie.Prelude.{◌≡◌, ◌++◌, refl, arith, true, [], ◌∷◌}
use crypto_kiddie.Cipher.{new_gost}
use crypto_kiddie.Keystream.{new, apply, add_c1, mesh_key}
use crypto_kiddie.Keystream.Apply.{apply-apply, xor_stream}
use crypto_kiddie.Keystream.Blocks.{apply-blocks, blocks}
use crypto_kiddie.Keystream.Meshing.{after_blocks, iterate, key-after_blocks}
use crypto_kiddie.Tests.Samples.{sample_key, sample_iv, sample_block}

-- The counter at its boundary: no value is normalised to 0.
add_c1_boundary : add_c1 0xfefefefb ≡ 0xffffffff
unfolding add_c1
add_c1_boundary = refl

apply-apply_example :
    let s = new sample_key sample_iv true in
    apply s (apply s sample_block).1 ≡ ((apply s sample_block).0, sample_block)
apply-apply_example = apply-apply (new sample_key sample_iv true) sample_block

-- A text of 20 bytes takes three blocks.
apply-blocks_example :
    let s = new sample_key sample_iv true in
    let text = sample_block ++ sample_block ++ (1 ∷ 2 ∷ 3 ∷ 4 ∷ []) in
    (apply s text).1 ≡ xor_stream text (blocks 3 s)
unfolding new
apply-blocks_example =
    apply-blocks (new sample_key sample_iv true)
      (sample_block ++ sample_block ++ (1 ∷ 2 ∷ 3 ∷ 4 ∷ [])) 3 (omega arith) (omega arith)

-- Block 128 is the first one under the second key.
key-after_blocks_example :
    let s = after_blocks 129 (new sample_key sample_iv true) in
    (s.raw_key ≡ iterate 1 mesh_key sample_key) × (s.key ≡ new_gost s.raw_key)
key-after_blocks_example = key-after_blocks sample_key sample_iv true 128
