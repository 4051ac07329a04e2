-- ===== src/Imit/Streaming.antt =====
-- `ImitContext` as a stream: what it holds depends on the bytes absorbed and not on how they were
-- cut into calls of `update`.
use crypto_kiddie.Prelude.{
  ℕ, ◌+◌, ◌-◌, ◌<◌, ◌≡◌, refl, sym, ap, ap₂, ◌∙◌, arith, min, true, false, ◌&&◌, List, [], ◌∷◌,
  ◌++◌, ltb, ◌==◌, length, take, drop, chunks_exact, remainder, length-append, length-drop,
  take-append, length-remainder, subst, subst₂, ne→==, ltb→le, ==→eq, ==→ne, length-take, take-all,
  drop-all, take-append-drop, append_assoc, append-nil, chunks_exact-cons, remainder-cons,
  chunks_exact-short, remainder-short, suc, inl, inr, Bool-cases,
}
use crypto_kiddie.Imit.{
  ImitContext, mesh, mesh_if_due, absorb_block, absorb_blocks, top_up, stash, update,
}

-- The tail is an array of eight bytes, less than full.
pub record IsContext (c : ImitContext) : Type 0 where
  pub tail_size : length c.tail ≡ 8
  pub partial : c.tail_len < 8

-- What the context holds: the state behind the whole blocks, with the tail forgotten, and the
-- bytes that wait.
pub record View : Type 0 where
  pub core : ImitContext
  pub pending : List ℕ

abbrev pub clear : ImitContext → ImitContext
clear c = record c { tail = []; tail_len = 0 }

abbrev pub view : ImitContext → View
view c = record { core = clear c; pending = take c.tail_len c.tail }

-- The specification of `update`: all whole blocks of what waits and what comes.
unfoldable pub feed : View → List ℕ → View
feed v input = record {
  core = absorb_blocks v.core (chunks_exact 8 (v.pending ++ input));
  pending = remainder 8 (v.pending ++ input);
}

absorb_block-tail :
    (c : ImitContext) (t : List ℕ) (n : ℕ) (block : List ℕ)
    → absorb_block (record c { tail = t; tail_len = n }) block
      ≡ record (absorb_block c block) { tail = t; tail_len = n }
unfolding absorb_block mesh_if_due mesh
absorb_block-tail c t n block = elim (Bool-cases (c.meshing && c.since_mesh == 1024)) [
  | inl due ↦ rw due
  | inr fresh ↦ rw fresh
]

absorb_blocks-tail :
    (c : ImitContext) (t : List ℕ) (n : ℕ) (blocks : List (List ℕ))
    → absorb_blocks (record c { tail = t; tail_len = n }) blocks
      ≡ record (absorb_blocks c blocks) { tail = t; tail_len = n }
unfolding absorb_blocks
absorb_blocks-tail c t n [] = refl
absorb_blocks-tail c t n (b ∷ bs) =
    ap (λ (d : ImitContext). absorb_blocks d bs) (absorb_block-tail c t n b)
    ∙ absorb_blocks-tail (absorb_block c b) t n bs

pub absorb_blocks-append :
    (c : ImitContext) (xs ys : List (List ℕ))
    → absorb_blocks c (xs ++ ys) ≡ absorb_blocks (absorb_blocks c xs) ys
unfolding absorb_blocks
absorb_blocks-append c [] ys = refl
absorb_blocks-append c (x ∷ xs) ys = absorb_blocks-append (absorb_block c x) xs ys

-- The two halves of `update`.
settle : ImitContext × List ℕ → ImitContext
settle r = stash (absorb_blocks r.0 (chunks_exact 8 r.1)) (remainder 8 r.1)

update-settle : (c : ImitContext) (input : List ℕ) → update c input ≡ settle (top_up c input)
unfolding update settle
update-settle c input = refl

record Settled (c : ImitContext) (v : View) : Type 0 where
  sound : IsContext c
  shows : view c ≡ v

stash_some :
    (c : ImitContext) (r : ℕ) (rem : List ℕ)
    → stash c (r ∷ rem)
      ≡ record c { tail = (r ∷ rem) ++ drop (length (r ∷ rem)) c.tail; tail_len = length (r ∷ rem) }
unfolding stash
stash_some c r rem = rw (ne→== (suc (length rem)) 0 (omega arith))

stash-Settled :
    (c : ImitContext) (rem : List ℕ)
    → length rem < 8
    → length c.tail ≡ 8
    → c.tail_len ≡ 0
    → Settled (stash c rem) (record { core = clear c; pending = rem })
unfolding stash
stash-Settled c [] short size none' = record {
  sound = record { tail_size = size; partial = omega arith };
  shows =
      ap (λ (n : ℕ). let v : View = record { core = clear c; pending = take n c.tail } in v) none';
}
stash-Settled c (r ∷ rem) short size none' =
    subst (λ (d : ImitContext). Settled d (record { core = clear c; pending = r ∷ rem }))
      (sym (stash_some c r rem))
      (record {
        sound = record {
          tail_size =
              length-append (r ∷ rem) (drop (length (r ∷ rem)) c.tail)
              ∙ omega (arith, length-drop (length (r ∷ rem)) c.tail);
          partial = short;
        };
        shows =
            ap (λ (t : List ℕ). let v : View = record { core = clear c; pending = t } in v)
              (take-append (r ∷ rem) (drop (length (r ∷ rem)) c.tail) (length (r ∷ rem)) refl);
      })

-- Behind a context with nothing waiting.
settle-Settled :
    (c : ImitContext) (input : List ℕ)
    → length c.tail ≡ 8
    → c.tail_len ≡ 0
    → Settled (settle (c, input)) (record {
      core = absorb_blocks (clear c) (chunks_exact 8 input);
      pending = remainder 8 input;
    })
unfolding settle
settle-Settled c input size none' =
    let d = absorb_blocks c (chunks_exact 8 input) in
    let same : d ≡ record d { tail = c.tail; tail_len = c.tail_len } =
      absorb_blocks-tail c c.tail c.tail_len (chunks_exact 8 input) in
    subst
      (λ (k : ImitContext).
        Settled (stash d (remainder 8 input)) (record { core = k; pending = remainder 8 input }))
      (sym (absorb_blocks-tail c [] 0 (chunks_exact 8 input)))
      (stash-Settled d (remainder 8 input) (omega (arith, length-remainder input))
        (ap (λ (k : ImitContext). length k.tail) same ∙ size)
        (ap (λ (k : ImitContext). k.tail_len) same ∙ none'))

top_up_none :
    (c : ImitContext) (input : List ℕ) → ltb 0 c.tail_len ≡ false → top_up c input ≡ (c, input)
unfolding top_up
top_up_none c input h = rw h

abbrev filled_tail : ImitContext → List ℕ → List ℕ
filled_tail c input =
    let taken = min (8 - c.tail_len) (length input) in
    take c.tail_len c.tail ++ (take taken input ++ drop (c.tail_len + taken) c.tail)

abbrev filled_len : ImitContext → List ℕ → ℕ
filled_len c input = c.tail_len + min (8 - c.tail_len) (length input)

top_up_full :
    (c : ImitContext) (input : List ℕ)
    → ltb 0 c.tail_len ≡ true
    → (filled_len c input == 8) ≡ true
    → top_up c input ≡ (
      record (absorb_block
          (record c { tail = filled_tail c input; tail_len = filled_len c input })
          (filled_tail c input)) { tail_len = 0 },
      drop (min (8 - c.tail_len) (length input)) input,
    )
unfolding top_up
top_up_full c input h k = rw (h, k)

top_up_part :
    (c : ImitContext) (input : List ℕ)
    → ltb 0 c.tail_len ≡ true
    → (filled_len c input == 8) ≡ false
    → top_up c input ≡ (
      record c { tail = filled_tail c input; tail_len = filled_len c input },
      drop (min (8 - c.tail_len) (length input)) input,
    )
unfolding top_up
top_up_part c input h k = rw (h, k)

reach : {d d' : ImitContext} {v v' : View} → d ≡ d' → v ≡ v' → Settled d' v' → Settled d v
reach p q = subst₂ Settled (sym p) (sym q)

update_none :
    (c : ImitContext) (input : List ℕ)
    → IsContext c
    → ltb 0 c.tail_len ≡ false
    → Settled (update c input) (feed (view c) input)
unfolding feed
update_none c input ok h =
    let none' : c.tail_len ≡ 0 = omega (arith, ltb→le _ _ h) in
    reach (update-settle c input ∙ ap settle (top_up_none c input h))
      (ap (λ (n : ℕ). feed (record { core = clear c; pending = take n c.tail }) input) none')
      (settle-Settled c input ok.tail_size none')

-- What a full tail holds is the first block of all that waits and comes.
module _ (c : ImitContext) (input : List ℕ) (ok : IsContext c) where
  waiting : List ℕ
  waiting = take c.tail_len c.tail

  length-waiting : length waiting ≡ c.tail_len
  unfolding waiting
  length-waiting = length-take c.tail_len c.tail (omega (arith, ok.tail_size, ok.partial))

  length-taken :
      length (take (min (8 - c.tail_len) (length input)) input)
      ≡ min (8 - c.tail_len) (length input)
  length-taken = length-take _ input (omega arith)

  length-filled_tail : length (filled_tail c input) ≡ 8
  unfolding waiting
  length-filled_tail =
      let taken = min (8 - c.tail_len) (length input) in
      length-append waiting (take taken input ++ drop (c.tail_len + taken) c.tail)
      ∙ omega (
        arith,
        length-append (take taken input) (drop (c.tail_len + taken) c.tail),
        length-waiting,
        length-taken,
        length-drop (c.tail_len + taken) c.tail,
        ok.tail_size,
        ok.partial,
      )

  joined_full :
      filled_len c input ≡ 8
      → waiting ++ input ≡ filled_tail c input ++ drop (min (8 - c.tail_len) (length input)) input
  unfolding waiting
  joined_full full =
      let taken = min (8 - c.tail_len) (length input) in
      let empty : drop (c.tail_len + taken) c.tail ≡ [] =
        drop-all (c.tail_len + taken) c.tail (omega (arith, ok.tail_size)) in
      ap (λ (t : List ℕ). waiting ++ t) (sym (take-append-drop taken input))
      ∙ sym (append_assoc waiting (take taken input) (drop taken input))
      ∙ ap (λ (t : List ℕ). (waiting ++ t) ++ drop taken input)
          (sym (append-nil (take taken input)))
      ∙ ap (λ (t : List ℕ). (waiting ++ (take taken input ++ t)) ++ drop taken input) (sym empty)

  update_full :
      ltb 0 c.tail_len ≡ true
      → (filled_len c input == 8) ≡ true
      → Settled (update c input) (feed (view c) input)
  unfolding feed waiting absorb_blocks
  update_full h k =
      let block = filled_tail c input in
      let rest = drop (min (8 - c.tail_len) (length input)) input in
      let d : ImitContext = record (absorb_block c block) { tail = block; tail_len = 0 } in
      let joined = joined_full (==→eq _ _ k) in
      reach
        (update-settle c input
          ∙ ap settle (top_up_full c input h k)
          ∙ ap
              (λ (t : ImitContext).
                let r : ImitContext × List ℕ = (record t { tail_len = 0 }, rest) in settle r)
              (absorb_block-tail c block (filled_len c input) block))
        (ap₂
            (λ (bs : List (List ℕ)) (rem : List ℕ).
              let v : View = record { core = absorb_blocks (clear c) bs; pending = rem } in v)
            (ap (chunks_exact 8) joined ∙ chunks_exact-cons block rest length-filled_tail)
            (ap (remainder 8) joined ∙ remainder-cons block rest length-filled_tail)
          ∙ ap
              (λ (t : ImitContext).
                let v : View = record {
                  core = absorb_blocks t (chunks_exact 8 rest);
                  pending = remainder 8 rest;
                } in
                v)
              (absorb_block-tail c [] 0 block))
        (settle-Settled d rest length-filled_tail refl)

  settle_nothing : (d : ImitContext) → settle (d, []) ≡ d
  unfolding settle stash absorb_blocks chunks_exact remainder
  settle_nothing d = refl

  update_part :
      ltb 0 c.tail_len ≡ true
      → (filled_len c input == 8) ≡ false
      → Settled (update c input) (feed (view c) input)
  unfolding feed waiting absorb_blocks
  update_part h k =
      let filled = filled_len c input in
      let all : min (8 - c.tail_len) (length input) ≡ length input =
        omega (arith, ==→ne _ _ k, ok.partial) in
      let short : length (waiting ++ input) ≡ filled =
        length-append waiting input ∙ omega (arith, length-waiting) in
      let few : length (waiting ++ input) < 8 = omega (arith, short, ==→ne _ _ k) in
      let d : ImitContext = record c { tail = filled_tail c input; tail_len = filled } in
      let tail_eq : filled_tail c input ≡ (waiting ++ input) ++ drop filled c.tail =
        ap (λ (t : List ℕ). waiting ++ (t ++ drop filled c.tail))
          (take-all _ input (omega (arith, all)))
        ∙ sym (append_assoc waiting input (drop filled c.tail)) in
      reach
        (update-settle c input
          ∙ ap settle (top_up_part c input h k)
          ∙ ap (λ (t : List ℕ). let r : ImitContext × List ℕ = (d, t) in settle r)
              (drop-all _ input (omega (arith, all)))
          ∙ settle_nothing d)
        (ap₂
          (λ (bs : List (List ℕ)) (rem : List ℕ).
            let v : View = record { core = absorb_blocks (clear c) bs; pending = rem } in v)
          (chunks_exact-short (waiting ++ input) few) (remainder-short (waiting ++ input) few))
        (record {
          sound = record { tail_size = length-filled_tail; partial = omega (arith, short) };
          shows =
              ap (λ (t : List ℕ). let v : View = record { core = clear c; pending = t } in v)
                (ap (take filled) tail_eq
                  ∙ take-append (waiting ++ input) (drop filled c.tail) filled (sym short));
        })

update-Settled :
    (c : ImitContext) (input : List ℕ)
    → IsContext c
    → Settled (update c input) (feed (view c) input)
update-Settled c input ok = elim (Bool-cases (ltb 0 c.tail_len)) [
  | inr h ↦ update_none c input ok h
  | inl h ↦ elim (Bool-cases (filled_len c input == 8)) [
    | inl k ↦ update_full c input ok h k
    | inr k ↦ update_part c input ok h k
  ]
]

-- `update` implements the specification `feed`, from every context with less than a block
-- waiting, and such a context is left.
pub view-update :
    (c : ImitContext) (input : List ℕ)
    → IsContext c
    → IsContext (update c input) × (view (update c input) ≡ feed (view c) input)
view-update c input ok = let s = update-Settled c input ok in (s.sound, s.shows)
