-- ===== src/Tests/ImitRuns.antt =====
-- The IMIT code at concrete inputs.
use crypto_kiddie.Prelude.{
  ◌≡◌, ◌++◌, refl, arith, true, [], ◌∷◌, range, inr, remainder, chunks_exact,
}
use crypto_kiddie.Cipher.{imit_step, new_gost}
use crypto_kiddie.Imit.{new, imit, imit_mix, update, finalize}
use crypto_kiddie.Imit.Streaming.{IsContext, view, feed, view-update}
use crypto_kiddie.Imit.Tags.{finalize-update_append, finalize-imit, new-IsContext}
use crypto_kiddie.Tests.Samples.{sample_key, sample_iv, sample_block}

imit_kat : imit sample_key sample_iv (range 0xa0 16) ≡ 0x93 ∷ 0x41 ∷ 0xba ∷ 0x1c ∷ []
unfolding imit remainder chunks_exact imit_mix imit_step new_gost
imit_kat = refl

view-update_example :
    let c = new sample_key sample_iv true in
    IsContext (update c sample_block) × (view (update c sample_block) ≡ feed (view c) sample_block)
view-update_example =
    view-update (new sample_key sample_iv true) sample_block
      (new-IsContext sample_key sample_iv true)

finalize-update_append_example :
    let c = new sample_key sample_iv true in
    finalize (update (update c (1 ∷ 2 ∷ 3 ∷ [])) sample_block)
    ≡ finalize (update c ((1 ∷ 2 ∷ 3 ∷ []) ++ sample_block))
finalize-update_append_example =
    finalize-update_append (new sample_key sample_iv true) (1 ∷ 2 ∷ 3 ∷ []) sample_block
      (new-IsContext sample_key sample_iv true)

finalize-imit_example :
    finalize (update (new sample_key sample_iv true) sample_block)
    ≡ imit sample_key sample_iv sample_block
finalize-imit_example = finalize-imit sample_key sample_iv true sample_block (inr (omega arith))
