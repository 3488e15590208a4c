-- ===== src/Base/Array.antt =====
-- A fixed array as a function of the index, and the chain of steps that may panic (`none`).
use Prim.Native.Nat.{ℕ, zero, suc, ◌+◌}
use mathlib.Core.Path.{◌≡◌, refl}
use mathlib.Core.Bool.{Bool, true, false, ◌||◌}
use mathlib.Core.Option.{Option, none, some, some-injective}
use v5gdb.Base.Tests.{◌==◌, if◌then◌else◌}

infixl 5 ◌>>=◌
abbrev pub ◌>>=◌ {ℓ κ} : {A : Type ℓ} {B : Type κ} → Option A → (A → Option B) → Option B
none >>= f = none
some a >>= f = f a

-- The array with entry `i` given anew.
abbrev pub update {ℓ} : {A : Type ℓ} → (ℕ → A) → ℕ → A → ℕ → A
update f i v j = if j == i then v else f j

-- Equality of Booleans
abbrev pub same : Bool → Bool → Bool
same true b = b
same false true = false
same false false = true

abbrev pub or_else {ℓ} : {A : Type ℓ} → Option A → Option A → Option A
or_else none b = b
or_else (some a) b = some a

-- The entries from `idx` on, `k` of them, of which the test holds.
unfoldable pub any : (ℕ → Bool) → ℕ → ℕ → Bool
any p zero idx = false
any p (suc k) idx = p idx || any p k (suc idx)

unfoldable pub count : (ℕ → Bool) → ℕ → ℕ → ℕ
count p zero idx = 0
count p (suc k) idx = (if p idx then 1 else 0) + count p k (suc idx)

unfoldable pub first : (ℕ → Bool) → ℕ → ℕ → Option ℕ
first p zero idx = none
first p (suc k) idx = if p idx then some idx else first p k (suc idx)

pub some_inj {ℓ} : {A : Type ℓ} {a b : A} → some a ≡ some b → a ≡ b
some_inj {a} {b} p = some-injective a b p

-- The parts of a chain that succeeds.
pub >>=-eq-some {ℓ κ} :
    {A : Type ℓ} {B : Type κ} (m : Option A) (f : A → Option B) {b : B}
    → (m >>= f) ≡ some b
    → (a : A) × (m ≡ some a) × (f a ≡ some b)
>>=-eq-some none f h = absurd (cc)
>>=-eq-some (some a) f h = (a, refl, h)
