-- ===== src/Target/Memory/Access.antt =====
-- What GDB may read and write.
use v5gdb.Base.{
  ◌==◌, not, leb, ◌%◌, ◌/◌, ◌+◌, ℕ, zero, suc, ◌-◌, ◌*◌, ◌<◌, ◌≤◌, ◌≡◌, refl, inl, inr, sym, ◌∙◌,
  subst, Bool, true, false, Option, some, some_inj, List, length, Bool-cases, ltb, if◌then◌else◌,
  arith, align_down, saturating_add, min, u32_max, ltb→lt, ltb→le, Memory, load, store, get_or,
  within, ◌&&◌,
}
use v5gdb.Cpu.Instruction.{read_word}
use v5gdb.Cpu.Vmsa.{MmuRegisters, for_addr}
use v5gdb.Cpu.Vmsa.Lookup.{lookup_l1-for_addr, for_addr-align_down}
use v5gdb.Target.Memory.{
  section_size, permits, can_access, test_sections, test_access, read_memory, write_memory,
}

-- Whether the descriptor of an address permits the access.
unfoldable pub accessible : MmuRegisters → Memory → Bool → ℕ → Bool
unfolding permits for_addr read_word
accessible r m write a =
    permits write (read_word m ((for_addr r a).table_ptr + 4 * (a / section_size)))

can_access-accessible :
    (r : MmuRegisters) (m : Memory) (write : Bool) (a : ℕ)
    → a < 4294967296
    → can_access r m write (align_down a section_size) ≡ some (accessible r m write a)
unfolding can_access accessible
can_access-accessible r m write a small = ground (
  arith,
  lookup_l1-for_addr r (align_down a section_size) (omega arith),
  for_addr-align_down r a,
  same_section a,
)
  where
    same_section : (x : ℕ) → align_down x section_size / section_size ≡ x / section_size
    same_section x = omega arith

-- The first `n` bytes of a range pass the test, and the byte after them does not if it is one of
-- the range.
pub record IsExtent (acc : ℕ → Bool) (start end n : ℕ) : Type 0 where
  pub fits : n ≤ end - start
  pub passes : (i : ℕ) → i < n → acc (start + i) ≡ true
  pub stops : n < end - start → acc (start + n) ≡ false

module _ (can : ℕ → Option Bool) (acc : ℕ → Bool) (start end : ℕ) (ordered : start ≤ end)
    (small : end < 4294967296)
    (can-acc : (a : ℕ) → a < 4294967296 → can (align_down a section_size) ≡ some (acc a)) where
  -- The address that is tested in round `k`.
  abbrev check : ℕ → ℕ
  check k = min (k * section_size) u32_max

  section-acc :
      (k i : ℕ) → k < 4096 → check k ≤ i → i < check (suc k) → can (check k) ≡ some (acc i)
  section-acc k i lt lo hi =
      subst (λ a. can a ≡ some (acc i)) (omega arith) (can-acc i (omega arith))

  next : (k : ℕ) → k < 4096 → saturating_add (check k) section_size ≡ check (suc k)
  next k lt = omega arith

  same-acc : (k i : ℕ) → k < 4096 → check k ≤ i → i < check (suc k) → acc i ≡ acc (check k)
  same-acc k i lt lo hi =
      some_inj
        (sym (section-acc k i lt lo hi) ∙ section-acc k (check k) lt (omega arith) (omega arith))

  passed-suc :
      (k : ℕ)
      → k < 4096
      → acc (check k) ≡ true
      → ((i : ℕ) → start ≤ i → i < check k → acc i ≡ true)
      → (i : ℕ) → start ≤ i
      → i < check (suc k)
      → acc i ≡ true
  passed-suc k lt f passed i lo hi = elim (Bool-cases (ltb i (check k))) [
    | inl e ↦ passed i lo (ground (arith, e))
    | inr e ↦ same-acc k i lt (ground (arith, e)) hi ∙ f
  ]

  loop :
      (rounds k : ℕ)
      → 4097 ≤ rounds + k
      → k ≤ 4096
      → align_down start section_size ≤ check k
      → ((i : ℕ) → start ≤ i → i < check k → acc i ≡ true)
      → (n : ℕ) × (test_sections can rounds start end (check k) ≡ some n) × IsExtent acc start end n
  unfolding test_sections
  loop zero k h small_k lo passed = absurd (omega arith)
  loop (suc rounds) k h small_k lo passed = elim (Bool-cases (ltb (check k) end)) [
    | inr e ↦ (
      end - start,
      ground (arith, e),
      record {
        fits = omega arith;
        passes = λ i lt. passed (start + i) (omega arith) (ground (arith, e));
        stops = λ lt. absurd (omega arith);
      },
    )
    | inl e ↦ elim (Bool-cases (acc (check k))) [
      | inl f ↦
          let lt : k < 4096 = ground (arith, e) in
          let (n, eq, extent) =
            loop rounds (suc k) (omega arith) (omega arith) (omega arith)
              (passed-suc k lt f passed) in
          (
            n,
            ground (
              arith,
              e,
              f,
              section-acc k (check k) lt (omega arith) (omega arith),
              next k lt,
              eq,
            ),
            extent,
          )
      | inr f ↦
          let lt : k < 4096 = ground (arith, e) in
          (
            check k - start,
            ground (arith, e, f, section-acc k (check k) lt (omega arith) (omega arith)),
            record {
              fits = ground (arith, e);
              passes = λ i below. passed (start + i) (omega arith) (omega arith);
              stops = λ below.
                  same-acc k (start + (check k - start)) lt (omega arith) (omega arith) ∙ f;
            },
          )
    ]
  ]

-- On a range within 32 bits `test_access` returns: the number of bytes from the start on that the
-- translation tables let the debugger access, which is all of them or stops at one that they do not.
pub test_access-IsExtent :
    (r : MmuRegisters) (m : Memory) (start end : ℕ) (write : Bool)
    → start ≤ end
    → end < 4294967296
    → (n : ℕ) × (test_access r m start end write ≡ some n)
      × IsExtent (accessible r m write) start end n
unfolding test_access
test_access-IsExtent r m start end write ordered small =
    subst
      (λ c.
        (n : ℕ) × (test_sections (can_access r m write) 4097 start end c ≡ some n)
        × IsExtent (accessible r m write) start end n)
      (omega arith)
      (loop (can_access r m write) (accessible r m write) start end ordered small
        (can_access-accessible r m write) 4097 (start / section_size) (omega arith) (omega arith)
        (omega arith) (λ i lo hi. absurd (omega arith)))

-- `read_memory` of a range within 32 bits returns the bytes at the addresses from the start on that
-- can be read, up to the first that cannot.
pub read_memory_returns :
    (r : MmuRegisters) (m : Memory) (start len : ℕ)
    → start + len < 4294967296
    → (n : ℕ) × (read_memory r m start len ≡ some (load m start n))
      × IsExtent (accessible r m false) start (start + len) n
unfolding read_memory
read_memory_returns r m start len small =
    let (n, eq, extent) =
      test_access-IsExtent r m start (saturating_add start len) false (omega arith) (omega arith) in
    (n, rw eq refl, subst (λ e. IsExtent (accessible r m false) start e n) (omega arith) extent)

-- `write_memory` of bytes within 32 bits returns. It reports success and changes these bytes alone
-- if all of them can be written; else one of them cannot, it reports a failure and changes nothing.
pub write_memory_returns :
    (r : MmuRegisters) (m : Memory) (start : ℕ) (bytes : List ℕ)
    → start + length bytes < 4294967296
    → (x : Bool × Memory) × (write_memory r m start bytes ≡ some x)
      × (x.0 ≡ true → (i : ℕ) → i < length bytes → accessible r m true (start + i) ≡ true)
      × (x.0 ≡ false → (i : ℕ) × (i < length bytes) × (accessible r m true (start + i) ≡ false))
      × ((a : ℕ)
          → x.1 a
            ≡ (if x.0 && within start (length bytes) a then get_or bytes (a - start) 0 else m a))
unfolding write_memory store
write_memory_returns r m start bytes small =
    let (n, eq, extent) =
      test_access-IsExtent r m start (saturating_add start (length bytes)) true (omega arith)
        (omega arith) in
    elim (Bool-cases (ltb n (length bytes))) [
      | inl e ↦
          let lt : n < length bytes = ltb→lt n (length bytes) e in
          (
            (false, m),
            rw eq (rw e refl),
            λ no. absurd (cc no),
            λ _. (n, lt, extent.stops (omega (arith, lt))),
            λ a. refl,
          )
      | inr e ↦
          let le : length bytes ≤ n = ltb→le n (length bytes) e in
          (
            (true, store m start bytes),
            rw eq (rw e refl),
            λ _ i lt. extent.passes i (omega (arith, le, lt)),
            λ no. absurd (cc no),
            λ a. refl,
          )
    ]

-- The bits that hold a section's access permissions.
abbrev pub permission_bits : ℕ → ℕ
permission_bits descriptor = descriptor / 1024 % 4 + descriptor / 32768 % 2 * 4

-- The debugger may write through a descriptor exactly if it is a section whose permission bits are
-- 1, 2 or 3, and read exactly if it is a section whose permission bits are neither 0 nor 4.
pub permits-permission_bits :
    (descriptor : ℕ)
    → let bits = permission_bits descriptor in
      (permits true descriptor ≡ (descriptor % 4 == 2 && (leb 1 bits && leb bits 3)))
      × (permits false descriptor ≡ (descriptor % 4 == 2 && (not (bits == 0) && not (bits == 4))))
unfolding permits
permits-permission_bits descriptor = ground arith
