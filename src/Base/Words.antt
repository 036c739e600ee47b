-- ===== src/Base/Words.antt =====
-- Machine words: the bounds of `u32` and `u64`, and the saturating operations of the source.
-- `saturating_sub` is the subtraction of ℕ.
use Prim.Native.Nat.{ℕ, ◌+◌, ◌*◌, ◌-◌, ◌^◌, min}

abbrev pub u32_max : ℕ
u32_max = 2 ^ 32 - 1

abbrev pub u64_max : ℕ
u64_max = 2 ^ 64 - 1

abbrev pub saturating_add32 : ℕ → ℕ → ℕ
saturating_add32 a b = min (a + b) u32_max

abbrev pub saturating_mul32 : ℕ → ℕ → ℕ
saturating_mul32 a b = min (a * b) u32_max

abbrev pub saturating_add64 : ℕ → ℕ → ℕ
saturating_add64 a b = min (a + b) u64_max
