-- ===== src/Imit.antt =====
-- The IMIT authentication code of src/gost28147.rs: the one-shot `imit` and the running
-- `ImitContext`. A pair of words is (n1, n2).
pub mod Streaming
pub mod Tags
use crypto_kiddie.Prelude.{
  ℕ, ◌+◌, ◌-◌, bit_xor, min, Bool, true, false, ◌&&◌, List, [], ◌∷◌, ◌++◌, if◌then◌else◌, ltb, ◌==◌,
  length, take, drop, replicate, le_value, le_bytes, chunks_exact, remainder,
}
use crypto_kiddie.Cipher.{Gost28147, new_gost, imit_step}
use crypto_kiddie.Keystream.{mesh_key}

abbrev pub words : List ℕ → ℕ × ℕ
words block = (le_value (take 4 block), le_value (take 4 (drop 4 block)))

-- `imit_step` takes and gives (high, low), the state is (low, high).
unfoldable pub imit_mix : Gost28147 → ℕ × ℕ → List ℕ → ℕ × ℕ
imit_mix cipher s block =
    let (b0, b1) = words block in
    let (hi, lo) = imit_step cipher (bit_xor s.1 b1, bit_xor s.0 b0) in (lo, hi)

unfoldable pub mix_blocks : Gost28147 → ℕ × ℕ → List (List ℕ) → ℕ × ℕ
mix_blocks cipher s [] = s
mix_blocks cipher s (block ∷ blocks) = mix_blocks cipher (imit_mix cipher s block) blocks

-- `block = [0u8; 8]; block[..rem.len()].copy_from_slice(rem)`
abbrev pub padded : List ℕ → List ℕ
padded rem = rem ++ replicate (8 - length rem) 0

unfoldable pub imit : List ℕ → List ℕ → List ℕ → List ℕ
unfolding mix_blocks
imit key iv message =
    let cipher = new_gost key in
    let s = mix_blocks cipher (words iv) (chunks_exact 8 message) in
    let rem = remainder 8 message in
    let n1 = if length rem == 0 then s.0 else (imit_mix cipher s (padded rem)).0 in le_bytes 4 n1

pub record ImitContext : Type 0 where
  pub key : Gost28147
  pub raw_key : List ℕ
  pub n1 : ℕ
  pub n2 : ℕ
  pub tail : List ℕ
  pub tail_len : ℕ
  pub since_mesh : ℕ
  pub meshing : Bool

unfoldable pub new : List ℕ → List ℕ → Bool → ImitContext
new key iv meshing = record {
  key = new_gost key;
  raw_key = key;
  n1 = (words iv).0;
  n2 = (words iv).1;
  tail = replicate 8 0;
  tail_len = 0;
  since_mesh = 0;
  meshing = meshing;
}

unfoldable pub mesh : ImitContext → ImitContext
mesh c = let new_key = mesh_key c.raw_key in record c { raw_key = new_key; key = new_gost new_key }

unfoldable pub mesh_if_due : ImitContext → ImitContext
unfolding mesh
mesh_if_due c = if c.meshing && c.since_mesh == 1024 then record (mesh c) { since_mesh = 0 } else c

unfoldable pub absorb_block : ImitContext → List ℕ → ImitContext
unfolding mesh_if_due
absorb_block c0 block =
    let c = mesh_if_due c0 in
    let s = imit_mix c.key (c.n1, c.n2) block in
    record c { n1 = s.0; n2 = s.1; since_mesh = c.since_mesh + 8 }

unfoldable pub absorb_blocks : ImitContext → List (List ℕ) → ImitContext
absorb_blocks c [] = c
absorb_blocks c (block ∷ blocks) = absorb_blocks (absorb_block c block) blocks

-- The first part of `update`: fill up a partial tail. What is left of the input comes back.
unfoldable pub top_up : ImitContext → List ℕ → ImitContext × List ℕ
top_up c input =
    let taken = min (8 - c.tail_len) (length input) in
    let tail' = take c.tail_len c.tail ++ (take taken input ++ drop (c.tail_len + taken) c.tail) in
    let filled = c.tail_len + taken in
    let c' = record c { tail = tail'; tail_len = filled } in
    if ltb 0 c.tail_len
    then (if filled == 8
        then (record (absorb_block c' tail') { tail_len = 0 }, drop taken input)
        else (c', drop taken input))
    else (c, input)

-- The last part of `update`: keep the remainder.
unfoldable pub stash : ImitContext → List ℕ → ImitContext
stash c rem =
    if length rem == 0
    then c
    else record c { tail = rem ++ drop (length rem) c.tail; tail_len = length rem }

unfoldable pub update : ImitContext → List ℕ → ImitContext
unfolding top_up absorb_blocks stash
update c0 input =
    let (c, rest) = top_up c0 input in
    stash (absorb_blocks c (chunks_exact 8 rest)) (remainder 8 rest)

-- The key of the padded tail: a pending mesh applies to it too.
unfoldable pub final_key : ImitContext → Gost28147
final_key c = if c.meshing && c.since_mesh == 1024 then new_gost (mesh_key c.raw_key) else c.key

unfoldable pub finalize : ImitContext → List ℕ
unfolding final_key
finalize c =
    let block = padded (take c.tail_len c.tail) in
    let s = imit_mix (final_key c) (c.n1, c.n2) block in
    le_bytes 4 (if ltb 0 c.tail_len then s.0 else c.n1)
