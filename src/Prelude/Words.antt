-- ===== src/Prelude/Words.antt =====
-- 32-bit words: shifts and rotations of `u32`, and counting.
use Prim.Native.Nat.{ℕ, zero, suc, ◌+◌, ◌-◌, ◌*◌, ◌/◌, ◌%◌, ◌^◌, bit_or}
use mathlib.Core.List.{List, [], ◌∷◌}
use native.Mathlib.Omega.{arith}
use crypto_kiddie.Prelude.Bits.{or_lt}
use crypto_kiddie.Prelude.Bytes.{IsU32}

abbrev pub shl32 : ℕ → ℕ → ℕ
shl32 x k = x * 2 ^ k % 2 ^ 32

abbrev pub rotate_left : ℕ → ℕ → ℕ
rotate_left x k = bit_or (shl32 x k) (x / 2 ^ (32 - k))

-- `i, i + 1, …`, `n` numbers.
abbrev pub range : ℕ → ℕ → List ℕ
range i zero = []
range i (suc n) = i ∷ range (i + 1) n

pub rotate_left-IsU32 : (x : ℕ) → IsU32 x → IsU32 (rotate_left x 11)
rotate_left-IsU32 x h = or_lt 32 (shl32 x 11) (x / 2 ^ 21) (omega arith) (omega arith)
