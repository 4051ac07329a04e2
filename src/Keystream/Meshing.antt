-- ===== src/Keystream/Meshing.antt =====
-- The key and the counters of the keystream, block by block.
use crypto_kiddie.Prelude.{
  ℕ, zero, suc, ◌+◌, ◌-◌, ◌*◌, ◌/◌, ◌%◌, ◌^◌, ◌<◌, ◌≡◌, refl, sym, ap, ap₂, subst, subst₂, ◌∙◌,
  arith, Bool, true, false, ◌&&◌, List, inl, inr, Bool-cases, ◌==◌, ==→eq, ==→ne, ne→==,
}
use crypto_kiddie.Cipher.{new_gost}
use crypto_kiddie.Keystream.{
  CntKeystream, new, mesh, mesh_key, mesh_if_due, next_block, add_c1, cnt_c1,
}

-- The state after `n` blocks of gamma.
unfoldable pub after_blocks : ℕ → CntKeystream → CntKeystream
after_blocks zero s = s
after_blocks (suc n) s = (next_block (after_blocks n s)).0

unfoldable pub iterate {ℓ} : {A : Type ℓ} → ℕ → (A → A) → A → A
iterate zero f x = x
iterate (suc n) f x = f (iterate n f x)

record IsKeyed (s : CntKeystream) (raw : List ℕ) (since : ℕ) (meshing : Bool) : Type 0 where
  raw_key : s.raw_key ≡ raw
  key : s.key ≡ new_gost raw
  since_mesh : s.since_mesh ≡ since
  flag : s.meshing ≡ meshing

mesh_if_due-true :
    (s : CntKeystream)
    → (s.meshing && s.since_mesh == 1024) ≡ true
    → mesh_if_due s ≡ record (mesh s) { since_mesh = 0 }
unfolding mesh_if_due
mesh_if_due-true s due = rw due

mesh_if_due-false :
    (s : CntKeystream) → (s.meshing && s.since_mesh == 1024) ≡ false → mesh_if_due s ≡ s
unfolding mesh_if_due
mesh_if_due-false s fresh = rw fresh

next_block-IsKeyed :
    (s : CntKeystream) (raw : List ℕ) (since : ℕ) (meshing : Bool)
    → IsKeyed (mesh_if_due s) raw since meshing
    → IsKeyed (next_block s).0 raw (since + 8) meshing
unfolding next_block
next_block-IsKeyed s raw since meshing k = record {
  raw_key = k.raw_key;
  key = k.key;
  since_mesh = ap (λ (t : ℕ). t + 8) k.since_mesh;
  flag = k.flag;
}

mesh-IsKeyed :
    (s : CntKeystream) (raw : List ℕ) (since : ℕ) (meshing : Bool)
    → IsKeyed s raw since meshing
    → IsKeyed (record (mesh s) { since_mesh = 0 }) (mesh_key raw) 0 meshing
unfolding mesh
mesh-IsKeyed s raw since meshing k = record {
  raw_key = ap mesh_key k.raw_key;
  key = ap (λ (t : List ℕ). new_gost (mesh_key t)) k.raw_key;
  since_mesh = refl;
  flag = k.flag;
}

-- One block, in the two cases.
next_block_due :
    (s : CntKeystream) (raw : List ℕ)
    → IsKeyed s raw 1024 true
    → IsKeyed (next_block s).0 (mesh_key raw) 8 true
next_block_due s raw k =
    let due : (s.meshing && s.since_mesh == 1024) ≡ true =
      ap₂ (λ (b : Bool) (t : ℕ). b && t == 1024) k.flag k.since_mesh in
    next_block-IsKeyed s (mesh_key raw) 0 true (
      subst (λ (t : CntKeystream). IsKeyed t (mesh_key raw) 0 true) (sym (mesh_if_due-true s due))
        (mesh-IsKeyed s raw 1024 true k))

next_block_fresh :
    (s : CntKeystream) (raw : List ℕ) (since : ℕ) (meshing : Bool)
    → IsKeyed s raw since meshing
    → (meshing && since == 1024) ≡ false
    → IsKeyed (next_block s).0 raw (since + 8) meshing
next_block_fresh s raw since meshing k fresh =
    let same : (s.meshing && s.since_mesh == 1024) ≡ false =
      ap₂ (λ (b : Bool) (t : ℕ). b && t == 1024) k.flag k.since_mesh ∙ fresh in
    next_block-IsKeyed s raw since meshing
      (subst (λ (t : CntKeystream). IsKeyed t raw since meshing) (sym (mesh_if_due-false s same)) k)

new-IsKeyed : (key iv : List ℕ) (meshing : Bool) → IsKeyed (new key iv meshing) key 0 meshing
unfolding new
new-IsKeyed key iv meshing = record { raw_key = refl; key = refl; since_mesh = refl; flag = refl }

recount :
    {s : CntKeystream} {raw raw' : List ℕ} {since since' : ℕ} {meshing : Bool}
    → raw ≡ raw'
    → since ≡ since'
    → IsKeyed s raw since meshing
    → IsKeyed s raw' since' meshing
recount {s} {meshing = meshing} p q = subst₂ (λ (r : List ℕ) (t : ℕ). IsKeyed s r t meshing) p q

meshed :
    (n : ℕ) (key iv : List ℕ)
    → IsKeyed
        (after_blocks (suc n) (new key iv true))
        (iterate (n / 128) mesh_key key)
        (n % 128 * 8 + 8)
        true
unfolding after_blocks iterate
meshed zero key iv = next_block_fresh _ key 0 true (new-IsKeyed key iv true) refl
meshed (suc n) key iv = elim (Bool-cases (n % 128 == 127)) [
  | inl last ↦
      recount
        (ap (λ (t : ℕ). iterate t mesh_key key) {x = suc (n / 128)} (omega (arith, ==→eq _ _ last)))
        (omega (arith, ==→eq _ _ last))
        (next_block_due _ _ (recount refl (omega (arith, ==→eq _ _ last)) (meshed n key iv)))
  | inr inner ↦
      recount (ap (λ (t : ℕ). iterate t mesh_key key) (omega (arith, ==→ne _ _ inner)))
        (omega (arith, ==→ne _ _ inner))
        (next_block_fresh _ _ _ true (meshed n key iv) (ne→== _ _ (omega (arith, ==→ne _ _ inner))))
]

unmeshed : (n : ℕ) (key iv : List ℕ) → IsKeyed (after_blocks n (new key iv false)) key (n * 8) false
unfolding after_blocks
unmeshed zero key iv = new-IsKeyed key iv false
unmeshed (suc n) key iv =
    recount refl (omega arith) (next_block_fresh _ key (n * 8) false (unmeshed n key iv) refl)

-- How often the key has been meshed when block `n` (from 0) is made: before each block whose
-- number is a positive multiple of 128, that is after each 1024 bytes; never without `meshing`.
abbrev pub meshes : Bool → ℕ → ℕ
meshes true n = n / 128
meshes false n = 0

-- The key under which block `n` of the gamma is made: `mesh_key` once for each full 1024 bytes
-- made before where `meshing` is set, the first key for ever where it is not.
-- The prepared cipher is always that of the raw key.
pub key-after_blocks :
    (key iv : List ℕ) (meshing : Bool) (n : ℕ)
    → let s = after_blocks (suc n) (new key iv meshing) in
      (s.raw_key ≡ iterate (meshes meshing n) mesh_key key) × (s.key ≡ new_gost s.raw_key)
key-after_blocks key iv true n =
    let k = meshed n key iv in (k.raw_key, k.key ∙ ap new_gost (sym k.raw_key))
key-after_blocks key iv false n =
    let k = unmeshed (suc n) key iv in
    (k.raw_key ∙ unfold iterate in refl, k.key ∙ ap new_gost (sym k.raw_key))

-- The counter N2 is added to modulo 2 ^ 32 - 1, as the standard says, and stays a word; 0xFFFFFFFF
-- is kept as a second form of 0.
pub add_c1_lem :
    (n2 : ℕ)
    → n2 < 2 ^ 32
    → (add_c1 n2 < 2 ^ 32) × (add_c1 n2 % (2 ^ 32 - 1) ≡ (n2 + cnt_c1) % (2 ^ 32 - 1))
unfolding add_c1
add_c1_lem n2 h = ground arith
