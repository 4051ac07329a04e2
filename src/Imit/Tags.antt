-- ===== src/Imit/Tags.antt =====
-- The tags of `ImitContext`: `finalize` against `update`, and against the one-shot `imit`.
use crypto_kiddie.Prelude.{
  ℕ, ◌+◌, ◌≤◌, ◌≡◌, refl, sym, ap, ap₂, ◌∙◌, arith, Bool, true, false, ◌&&◌, List, [], ◌∷◌, ◌++◌,
  ltb, ◌==◌, length, take, chunks_exact, remainder, inl, inr, Bool-cases, if◌then◌else◌,
  append_assoc, le_bytes, length-take, chunks_exact-append, remainder-append, ne→==, le→ltb, lt→ltb,
  ==→eq, ==→ne, subst, length-chunks_exact, length-remainder, ◌⊎◌, ◌*◌, ◌/◌, ◌%◌, ◌≢◌,
}
use crypto_kiddie.Cipher.{Gost28147, new_gost}
use crypto_kiddie.Imit.{
  ImitContext, new, mesh, mesh_if_due, imit_mix, mix_blocks, words, padded, imit, absorb_block,
  absorb_blocks, update, final_key, finalize,
}
use crypto_kiddie.Imit.Streaming.{
  IsContext, View, clear, view, feed, absorb_blocks-append, view-update,
}

pub feed-append : (v : View) (a b : List ℕ) → feed (feed v a) b ≡ feed v (a ++ b)
unfolding feed
feed-append v a b =
    let p = v.pending ++ a in
    let joined : p ++ b ≡ v.pending ++ (a ++ b) = append_assoc v.pending a b in
    ap₂ (λ (k : ImitContext) (r : List ℕ). let w : View = record { core = k; pending = r } in w)
      (sym (absorb_blocks-append v.core (chunks_exact 8 p) (chunks_exact 8 (remainder 8 p ++ b)))
        ∙ ap (absorb_blocks v.core) (sym (chunks_exact-append b p) ∙ ap (chunks_exact 8) joined))
      (sym (remainder-append b p) ∙ ap (remainder 8) joined)

-- Two calls of `update` hold what one call on both parts holds.
pub update-append :
    (c : ImitContext) (a b : List ℕ)
    → IsContext c
    → view (update (update c a) b) ≡ view (update c (a ++ b))
update-append c a b ok =
    let first = view-update c a ok in
    (view-update (update c a) b first.0).1
    ∙ ap (λ (v : View). feed v b) first.1
    ∙ feed-append (view c) a b
    ∙ sym (view-update c (a ++ b) ok).1

-- The tag that a view gives: a tail is absorbed like a block, padded with zeros.
unfoldable pub tag : View → List ℕ
tag v =
    le_bytes 4
      (if ltb 0 (length v.pending) then (absorb_block v.core (padded v.pending)).n1 else v.core.n1)

final_block :
    (c : ImitContext) (block : List ℕ)
    → (imit_mix (final_key c) (c.n1, c.n2) block).0 ≡ (absorb_block (clear c) block).n1
unfolding final_key absorb_block mesh_if_due mesh
final_block c block = elim (Bool-cases (c.meshing && c.since_mesh == 1024)) [
  | inl due ↦ rw due
  | inr fresh ↦ rw fresh
]

-- `finalize` reads nothing but the view.
pub finalize-view : (c : ImitContext) → IsContext c → finalize c ≡ tag (view c)
unfolding finalize tag
finalize-view c ok =
    let p = take c.tail_len c.tail in
    ap₂ (λ (x n : ℕ). le_bytes 4 (if ltb 0 n then x else c.n1)) (final_block c (padded p))
      (sym (length-take c.tail_len c.tail (omega (arith, ok.tail_size, ok.partial))))

-- The tag does not depend on how the bytes were cut into calls of `update`.
pub finalize-update_append :
    (c : ImitContext) (a b : List ℕ)
    → IsContext c
    → finalize (update (update c a) b) ≡ finalize (update c (a ++ b))
finalize-update_append c a b ok =
    let first = view-update c a ok in
    finalize-view _ (view-update (update c a) b first.0).0
    ∙ ap tag (update-append c a b ok)
    ∙ sym (finalize-view _ (view-update c (a ++ b) ok).0)

pub new-IsContext : (key iv : List ℕ) (meshing : Bool) → IsContext (new key iv meshing)
unfolding new
new-IsContext key iv meshing = record { tail_size = refl; partial = omega arith }

-- While no mesh is due the words go through `imit_mix` alone, under one key.
record IsPlain (c : ImitContext) (key : Gost28147) (s : ℕ × ℕ) (meshing : Bool) (since : ℕ)
    : Type 0 where
  flag : c.meshing ≡ meshing
  count : c.since_mesh ≡ since
  key_eq : c.key ≡ key
  n1 : c.n1 ≡ s.0
  n2 : c.n2 ≡ s.1

-- No mesh falls due within `n` bytes.
abbrev pub IsQuiet : Bool → ℕ → Type 0
IsQuiet meshing n = (meshing ≡ false) ⊎ (n ≤ 1024)

not_due :
    (meshing : Bool) (since : ℕ) → IsQuiet meshing (since + 8) → (meshing && since == 1024) ≡ false
not_due false since q = refl
not_due true since (inl e) = cc
not_due true since (inr e) = ne→== _ _ (omega arith)

IsQuiet-le : {meshing : Bool} {m n : ℕ} → m ≤ n → IsQuiet meshing n → IsQuiet meshing m
IsQuiet-le h (inl e) = inl e
IsQuiet-le h (inr e) = inr (omega arith)

-- A message with a rest ends below a multiple of 1024.
IsQuiet-padded :
    {meshing : Bool} (n k : ℕ)
    → k ≡ n / 8
    → n % 8 ≢ 0
    → IsQuiet meshing n
    → IsQuiet meshing (8 * k + 8)
IsQuiet-padded n k h r (inl e) = inl e
IsQuiet-padded n k h r (inr e) = inr (omega arith)

module _ (key : Gost28147) (meshing : Bool) where
  absorb_block-IsPlain :
      (c : ImitContext) (s : ℕ × ℕ) (since : ℕ) (block : List ℕ)
      → IsQuiet meshing (since + 8)
      → IsPlain c key s meshing since
      → IsPlain (absorb_block c block) key (imit_mix key s block) meshing (since + 8)
  unfolding absorb_block mesh_if_due
  absorb_block-IsPlain c s since block quiet p =
      let mixed : imit_mix c.key (c.n1, c.n2) block ≡ imit_mix key s block =
        λ i. imit_mix (p.key_eq i) (p.n1 i, p.n2 i) block in
      let same : (c.meshing && c.since_mesh == 1024) ≡ false =
        ap₂ (λ (b : Bool) (t : ℕ). b && t == 1024) p.flag p.count ∙ not_due meshing since quiet in
      rw same (record {
        flag = p.flag;
        count = ap (λ (t : ℕ). t + 8) p.count;
        key_eq = p.key_eq;
        n1 = ap (λ (r : ℕ × ℕ). r.0) mixed;
        n2 = ap (λ (r : ℕ × ℕ). r.1) mixed;
      })

  absorb_blocks-IsPlain :
      (c : ImitContext) (s : ℕ × ℕ) (since : ℕ) (blocks : List (List ℕ))
      → IsQuiet meshing (since + 8 * length blocks)
      → IsPlain c key s meshing since
      → IsPlain
          (absorb_blocks c blocks)
          key
          (mix_blocks key s blocks)
          meshing
          (since + 8 * length blocks)
  unfolding absorb_blocks mix_blocks
  absorb_blocks-IsPlain c s since [] quiet p = subst (IsPlain c key s meshing) (omega arith) p
  absorb_blocks-IsPlain c s since (b ∷ bs) quiet p =
      subst
        (IsPlain (absorb_blocks (absorb_block c b) bs) key (mix_blocks key (imit_mix key s b) bs)
          meshing)
        (omega arith)
        (absorb_blocks-IsPlain (absorb_block c b) (imit_mix key s b) (since + 8) bs
          (IsQuiet-le (omega arith) quiet)
          (absorb_block-IsPlain c s since b (IsQuiet-le (omega arith) quiet) p))

clear-new-IsPlain :
    (key iv : List ℕ) (meshing : Bool)
    → IsPlain (clear (new key iv meshing)) (new_gost key) (words iv) meshing 0
unfolding new
clear-new-IsPlain key iv meshing = record {
  flag = refl;
  count = refl;
  key_eq = refl;
  n1 = refl;
  n2 = refl;
}

tag-imit :
    (key iv : List ℕ) (meshing : Bool) (message : List ℕ)
    → IsQuiet meshing (length message)
    → tag (feed (view (new key iv meshing)) message) ≡ imit key iv message
unfolding tag feed new imit
tag-imit key iv meshing message quiet =
    let blocks = chunks_exact 8 message in
    let rem = remainder 8 message in
    let counted : 8 * length blocks ≤ length message = omega (arith, length-chunks_exact message) in
    let p =
      absorb_blocks-IsPlain (new_gost key) meshing (clear (new key iv meshing)) (words iv) 0 blocks
        (IsQuiet-le (omega arith) quiet) (clear-new-IsPlain key iv meshing) in
    elim (Bool-cases (length rem == 0)) [
      | inl none' ↦
          rw (none', le→ltb 0 (length rem) (omega (arith, ==→eq _ _ none'))) (ap (le_bytes 4) p.n1)
      | inr some' ↦
          let q =
            absorb_block-IsPlain (new_gost key) meshing _ _ (8 * length blocks) (padded rem)
              (IsQuiet-padded (length message) (length blocks) (length-chunks_exact message)
                (omega (arith, length-remainder message, ==→ne _ _ some')) quiet)
              (subst (IsPlain _ (new_gost key) _ meshing) {x = 0 + 8 * length blocks} (omega arith)
                p) in
          rw (some', lt→ltb 0 (length rem) (omega (arith, ==→ne _ _ some'))) (ap (le_bytes 4) q.n1)
    ]

-- The running code agrees with the one-shot `imit` on every message, without meshing, and with it
-- on every message of at most 1024 bytes.
pub finalize-imit :
    (key iv : List ℕ) (meshing : Bool) (message : List ℕ)
    → IsQuiet meshing (length message)
    → finalize (update (new key iv meshing) message) ≡ imit key iv message
finalize-imit key iv meshing message quiet =
    let after = view-update (new key iv meshing) message (new-IsContext key iv meshing) in
    finalize-view _ after.0 ∙ ap tag after.1 ∙ tag-imit key iv meshing message quiet
