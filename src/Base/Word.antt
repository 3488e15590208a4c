-- ===== src/Base/Word.antt =====
-- Machine words as native numbers: the wrap of `u32`, masks and bit fields as arithmetic.
use Prim.Native.Nat.{ℕ, ◌+◌, ◌-◌, ◌*◌, ◌/◌, ◌%◌, min}
use mathlib.Core.Bool.{Bool, true, false}
use v5gdb.Base.Tests.{◌==◌}

abbrev pub u32_mod : ℕ
u32_mod = 4294967296

abbrev pub u32_max : ℕ
u32_max = 4294967295

-- `a.wrapping_sub(b)` on `u32`
abbrev pub wrapping_sub : ℕ → ℕ → ℕ
wrapping_sub a b = (a + u32_mod - b) % u32_mod

-- `a.saturating_add(b)` on `u32`
abbrev pub saturating_add : ℕ → ℕ → ℕ
saturating_add a b = min (a + b) u32_max

-- `x & !(m - 1)` for a power of two `m`: the low bits cleared
abbrev pub align_down : ℕ → ℕ → ℕ
align_down x m = x - x % m

-- A bit of a register, and the register with that bit given anew; `w` is the bit's weight.
abbrev pub bit : ℕ → ℕ → Bool
bit raw w = raw / w % 2 == 1

abbrev pub weigh : Bool → ℕ → ℕ
weigh true w = w
weigh false w = 0

abbrev pub with_bit : ℕ → ℕ → Bool → ℕ
with_bit raw w b = raw - raw / w % 2 * w + weigh b w
