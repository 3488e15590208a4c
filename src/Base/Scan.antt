-- ===== src/Base/Scan.antt =====
-- Laws of `any`, `count` and `first`, the searches over a range of an array.
use Prim.Native.Nat.{ℕ, zero, suc, ◌+◌, ◌≤◌, ◌<◌}
use mathlib.Core.Path.{◌≡◌, refl}
use mathlib.Core.Logic.{inl, inr}
use mathlib.Core.Bool.{Bool, true, false, ◌&&◌, ◌||◌}
use mathlib.Core.Option.{none, some}
use native.Mathlib.Omega.{arith}
use v5gdb.Base.Tests.{Bool-cases, ◌==◌, if◌then◌else◌}
use v5gdb.Base.Array.{any, count, first, update}

pub any_intro :
    (p : ℕ → Bool) (k idx j : ℕ) → idx ≤ j → j < idx + k → p j ≡ true → any p k idx ≡ true
unfolding any
any_intro p zero idx j lo hi h = absurd (omega arith)
any_intro p (suc k) idx j lo hi h = ground (arith, any_intro p k (suc idx) j)

pub any-false :
    (p : ℕ → Bool) (k idx j : ℕ) → any p k idx ≡ false → idx ≤ j → j < idx + k → p j ≡ false
unfolding any
any-false p zero idx j h lo hi = absurd (omega arith)
any-false p (suc k) idx j h lo hi = ground (arith, any-false p k (suc idx) j)

pub any-true :
    (p : ℕ → Bool) (k idx : ℕ)
    → any p k idx ≡ true
    → (j : ℕ) × (idx ≤ j) × (j < idx + k) × (p j ≡ true)
unfolding any
any-true p zero idx h = absurd (ground arith)
any-true p (suc k) idx h = elim (Bool-cases (p idx)) [
  | inl e ↦ (idx, omega arith, omega arith, e)
  | inr e ↦
      let (j, lo, hi, t) = any-true p k (suc idx) (ground arith) in (j, omega arith, omega arith, t)
]

pub any_cong :
    (p q : ℕ → Bool) (k idx : ℕ)
    → ((j : ℕ) → idx ≤ j → j < idx + k → p j ≡ q j)
    → any p k idx ≡ any q k idx
unfolding any
any_cong p q zero idx h = refl
any_cong p q (suc k) idx h = ground (
  arith,
  h idx (omega arith) (omega arith),
  any_cong p q k (suc idx) (λ j lo hi. h j (omega arith) (omega arith)),
)

-- A new entry at an index of the range where the test failed before.
pub any-update :
    (p : ℕ → Bool) (i : ℕ) (v : Bool) (k idx : ℕ)
    → idx ≤ i
    → i < idx + k
    → p i ≡ false
    → any (update p i v) k idx ≡ (v || any p k idx)
unfolding any
any-update p i v zero idx lo hi h = absurd (omega arith)
any-update p i true k idx lo hi h = any_intro (update p i true) k idx i lo hi (ground arith)
any-update p i false k idx lo hi h = any_cong (update p i false) p k idx (λ j _ _. ground arith)

pub any_and : (p : ℕ → Bool) (b : Bool) (k idx : ℕ) → any (λ j. b && p j) k idx ≡ (b && any p k idx)
unfolding any
any_and p b zero idx = ground arith
any_and p b (suc k) idx = ground (arith, any_and p b k (suc idx))

pub first-some :
    (p : ℕ → Bool) (k idx i : ℕ) → first p k idx ≡ some i → (idx ≤ i) × (i < idx + k) × (p i ≡ true)
unfolding first
first-some p zero idx i h = absurd (ground arith)
first-some p (suc k) idx i h = ground (arith, first-some p k (suc idx) i)

pub first-none :
    (p : ℕ → Bool) (k idx j : ℕ) → first p k idx ≡ none → idx ≤ j → j < idx + k → p j ≡ false
unfolding first
first-none p zero idx j h lo hi = absurd (omega arith)
first-none p (suc k) idx j h lo hi = ground (arith, first-none p k (suc idx) j)

pub count_cong :
    (p q : ℕ → Bool) (k idx : ℕ)
    → ((j : ℕ) → idx ≤ j → j < idx + k → p j ≡ q j)
    → count p k idx ≡ count q k idx
unfolding count
count_cong p q zero idx h = refl
count_cong p q (suc k) idx h = ground (
  arith,
  h idx (omega arith) (omega arith),
  count_cong p q k (suc idx) (λ j lo hi. h j (omega arith) (omega arith)),
)

-- The count with entry `i` of the range given anew, without the old entry and with the new one.
pub count-update :
    (p : ℕ → Bool) (i : ℕ) (v : Bool) (k idx : ℕ)
    → idx ≤ i
    → i < idx + k
    → count (update p i v) k idx + (if p i then 1 else 0) ≡ count p k idx + (if v then 1 else 0)
unfolding count
count-update p i v zero idx lo hi = absurd (omega arith)
count-update p i v (suc k) idx lo hi = elim (Bool-cases (i == idx)) [
  | inl e ↦ ground (arith, count_cong (update p i v) p k (suc idx) (λ j lo' hi'. ground arith))
  | inr e ↦ ground (arith, count-update p i v k (suc idx) (ground arith) (omega arith))
]

pub count-le : (p : ℕ → Bool) (k idx : ℕ) → count p k idx ≤ k
unfolding count
count-le p zero idx = omega arith
count-le p (suc k) idx = ground (arith, count-le p k (suc idx))

-- Counting over a longer range whose further entries fail changes nothing.
pub count_extend :
    (p : ℕ → Bool) (k l idx : ℕ)
    → k ≤ l
    → ((j : ℕ) → idx + k ≤ j → p j ≡ false)
    → count p l idx ≡ count p k idx
unfolding count
count_extend p zero zero idx le h = refl
count_extend p zero (suc l) idx le h = ground (
  arith,
  h idx (omega arith),
  count_extend p zero l (suc idx) (omega arith) (λ j lo. h j (omega arith)),
)
count_extend p (suc k) zero idx le h = absurd (omega arith)
count_extend p (suc k) (suc l) idx le h =
    ground (arith, count_extend p k l (suc idx) (omega arith) (λ j lo. h j (omega arith)))

-- A full range has no entry that fails.
pub count_full :
    (p : ℕ → Bool) (k idx j : ℕ) → k ≤ count p k idx → idx ≤ j → j < idx + k → p j ≡ true
unfolding count
count_full p zero idx j h lo hi = absurd (omega arith)
count_full p (suc k) idx j h lo hi =
    ground (arith, count-le p k (suc idx), count_full p k (suc idx) j)

-- A range whose entries all pass counts its length.
pub count_all :
    (p : ℕ → Bool) (k idx : ℕ) → ((j : ℕ) → idx ≤ j → j < idx + k → p j ≡ true) → count p k idx ≡ k
unfolding count
count_all p zero idx h = refl
count_all p (suc k) idx h = ground (
  arith,
  h idx (omega arith) (omega arith),
  count_all p k (suc idx) (λ j lo hi. h j (omega arith) (omega arith)),
)
