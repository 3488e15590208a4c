-- ===== src/Base/Bytes.antt =====
-- Little-endian bytes, and a memory of bytes.
use Prim.Native.Nat.{ℕ, zero, suc, ◌+◌, ◌-◌, ◌*◌, ◌/◌, ◌%◌, ◌^◌, ◌<◌}
use mathlib.Core.Path.{◌≡◌, refl, ap, ◌∙◌}
use mathlib.Core.Bool.{Bool, ◌&&◌}
use mathlib.Core.List.{List, [], ◌∷◌}
use native.Mathlib.Omega.{arith}
use v5gdb.Base.Tests.{ltb, leb, if◌then◌else◌}
use v5gdb.Base.Lists.{length, get_or}

-- `to_le_bytes` of a word of `n` bytes
unfoldable pub to_le_bytes : ℕ → ℕ → List ℕ
to_le_bytes zero x = []
to_le_bytes (suc n) x = x % 256 ∷ to_le_bytes n (x / 256)

-- `from_le_bytes`
unfoldable pub from_le_bytes : List ℕ → ℕ
from_le_bytes [] = 0
from_le_bytes (b ∷ bs) = b + 256 * from_le_bytes bs

pub length-to_le_bytes : (n x : ℕ) → length (to_le_bytes n x) ≡ n
unfolding to_le_bytes
length-to_le_bytes zero x = refl
length-to_le_bytes (suc n) x = omega (arith, length-to_le_bytes n (x / 256))

pub from_le_bytes-to_le_bytes4 : (x : ℕ) → x < 2 ^ 32 → from_le_bytes (to_le_bytes 4 x) ≡ x
unfolding to_le_bytes from_le_bytes
from_le_bytes-to_le_bytes4 x h = omega arith

pub from_le_bytes-to_le_bytes8 : (x : ℕ) → x < 2 ^ 64 → from_le_bytes (to_le_bytes 8 x) ≡ x
unfolding to_le_bytes from_le_bytes
from_le_bytes-to_le_bytes8 x h = omega arith

-- The byte at each address.
abbrev pub Memory : Type 0
Memory = ℕ → ℕ

-- Whether `a` is one of the `n` addresses from `base` on.
abbrev pub within : ℕ → ℕ → ℕ → Bool
within base n a = leb base a && ltb a (base + n)

-- Bytes stored from an address on.
unfoldable pub store : Memory → ℕ → List ℕ → Memory
store m base bs a = if within base (length bs) a then get_or bs (a - base) 0 else m a

unfoldable pub load : Memory → ℕ → ℕ → List ℕ
load m a zero = []
load m a (suc n) = m a ∷ load m (suc a) n

-- The bytes of a word that was read from them.
pub to_le_bytes-load :
    (m : Memory) (n base : ℕ)
    → ((a : ℕ) → m a < 256)
    → to_le_bytes n (from_le_bytes (load m base n)) ≡ load m base n
unfolding to_le_bytes from_le_bytes load
to_le_bytes-load m zero base h = refl
to_le_bytes-load m (suc n) base h = ground (
  arith,
  h base,
  to_le_bytes-load m n (suc base) h,
  div_digit (m base) (from_le_bytes (load m (suc base) n)) (h base),
)
  where
    div_digit : (b x : ℕ) → b < 256 → ((b + 256 * x) % 256 ≡ b) × ((b + 256 * x) / 256 ≡ x)
    div_digit b x lt = omega arith

pub get_or-load : (m : Memory) (n base i : ℕ) → i < n → get_or (load m base n) i 0 ≡ m (base + i)
unfolding load
get_or-load m zero base i h = absurd (omega arith)
get_or-load m (suc n) base zero h = ap m (omega arith)
get_or-load m (suc n) base (suc i) h =
    get_or-load m n (suc base) i (omega arith) ∙ ap m (omega arith)
