-- ===== src/Sys/FreeRtos/Layout.antt =====
-- Values laid out one after the other in memory (src/sys/freertos/api.rs, `SavedTaskContextFPU`).
use v5gdb.Base.{
  ℕ, suc, ◌+◌, ◌-◌, ◌*◌, ◌<◌, ◌≡◌, refl, ◌∙◌, ap, subst, List, [], ◌∷◌, ◌++◌, length, length-append,
  length-to_le_bytes, get_or, Memory, load, store, to_le_bytes, from_le_bytes, arith,
}
use v5gdb.Exceptions.Serial.{send_all}
use v5gdb.Exceptions.Serial.RoundTrip.{AllBelow}
use v5gdb.Sys.FreeRtos.{read_array}

-- The bytes lie at the address.
abbrev pub Holds : Memory → ℕ → List ℕ → Type 0
Holds m base [] = Unit {0}
Holds m base (b ∷ bs) = (m base ≡ b) × Holds m (suc base) bs

pub Holds-left :
    (m : Memory) (base : ℕ) (xs ys : List ℕ) → Holds m base (xs ++ ys) → Holds m base xs
Holds-left m base [] ys h = tt
Holds-left m base (x ∷ xs) ys h = (h.0, Holds-left m (suc base) xs ys h.1)

pub Holds-right :
    (m : Memory) (base : ℕ) (xs ys : List ℕ)
    → Holds m base (xs ++ ys)
    → Holds m (base + length xs) ys
Holds-right m base [] ys h = subst (λ a. Holds m a ys) (omega arith) h
Holds-right m base (x ∷ xs) ys h =
    subst (λ a. Holds m a ys) (omega arith) (Holds-right m (suc base) xs ys h.1)

load-Holds : (m : Memory) (base : ℕ) (xs : List ℕ) → Holds m base xs → load m base (length xs) ≡ xs
unfolding load
load-Holds m base [] h = refl
load-Holds m base (x ∷ xs) h = ground (arith, h.0, load-Holds m (suc base) xs h.1)

-- A store puts its bytes there.
Holds-from :
    (m : Memory) (base : ℕ) (xs : List ℕ)
    → ((i : ℕ) → i < length xs → m (base + i) ≡ get_or xs i 0)
    → Holds m base xs
Holds-from m base [] h = tt
Holds-from m base (x ∷ xs) h = (
  ap m (omega arith) ∙ h 0 (omega arith),
  Holds-from m (suc base) xs (λ i lt. ap m (omega arith) ∙ h (suc i) (omega arith)),
)

pub Holds-store : (m : Memory) (base : ℕ) (xs : List ℕ) → Holds (store m base xs) base xs
unfolding store
Holds-store m base xs = Holds-from (store m base xs) base xs (λ i lt. ground (arith, lt, same i))
  where
    same : (i : ℕ) → get_or xs (base + i - base) 0 ≡ get_or xs i 0
    same i = ap (λ j. get_or xs j 0) (omega arith)

-- One value of `n` bytes.
pub value-Holds :
    (n : ℕ) (m : Memory) (base x : ℕ)
    → from_le_bytes (to_le_bytes n x) ≡ x
    → Holds m base (to_le_bytes n x)
    → from_le_bytes (load m base n) ≡ x
value-Holds n m base x back h =
    subst (λ k. from_le_bytes (load m base k) ≡ from_le_bytes (to_le_bytes n x))
      (length-to_le_bytes n x) (ap from_le_bytes (load-Holds m base (to_le_bytes n x) h))
    ∙ back

pub read_array-Holds :
    (n bound : ℕ)
    → ((x : ℕ) → x < bound → from_le_bytes (to_le_bytes n x) ≡ x)
    → (m : Memory) (base : ℕ) (xs : List ℕ) → AllBelow bound xs
    → Holds m base (send_all n xs)
    → read_array m n base (length xs) ≡ xs
unfolding read_array send_all
read_array-Holds n bound back m base [] b h = refl
read_array-Holds n bound back m base (x ∷ xs) b h =
    let first =
      value-Holds n m base x (back x b.0) (Holds-left m base (to_le_bytes n x) (send_all n xs) h) in
    let rest = read_array-Holds n bound back m (base + n) xs b.1 (
      subst (λ k. Holds m (base + k) (send_all n xs)) (length-to_le_bytes n x)
        (Holds-right m base (to_le_bytes n x) (send_all n xs) h)) in
    ap (λ v. v ∷ read_array m n (base + n) (length xs)) first ∙ ap (λ l. x ∷ l) rest

pub length-send_all : (n : ℕ) (xs : List ℕ) → length (send_all n xs) ≡ n * length xs
unfolding send_all
length-send_all n [] = omega arith
length-send_all n (x ∷ xs) =
    length-append (to_le_bytes n x) (send_all n xs)
    ∙ grind (arith, length-to_le_bytes n x, length-send_all n xs)
