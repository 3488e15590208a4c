-- ===== src/Cpu/Vmsa/Lookup.antt =====
-- The lookup of a level-1 descriptor never fails.
use v5gdb.Base.{
  ℕ, zero, suc, ◌+◌, ◌-◌, ◌*◌, ◌/◌, ◌<◌, ◌≡◌, refl, inl, inr, some, Bool-cases, arith, align_down,
}
use v5gdb.Cpu.Vmsa.{
  MmuRegisters, pow2, tt0_boundary, has_leading_zeros, virtual_addr_uses_tt0, for_addr, lookup_l1,
}

-- An address with `n` leading zeros lies in the first sections.
section-pow2 : (n addr : ℕ) → n < 8 → addr < pow2 (32 - n) → addr / 1048576 < pow2 (12 - n)
unfolding pow2
section-pow2 zero addr h lt = omega arith
section-pow2 (suc zero) addr h lt = omega arith
section-pow2 (suc (suc zero)) addr h lt = omega arith
section-pow2 (suc (suc (suc zero))) addr h lt = omega arith
section-pow2 (suc (suc (suc (suc zero)))) addr h lt = omega arith
section-pow2 (suc (suc (suc (suc (suc zero))))) addr h lt = omega arith
section-pow2 (suc (suc (suc (suc (suc (suc zero)))))) addr h lt = omega arith
section-pow2 (suc (suc (suc (suc (suc (suc (suc zero))))))) addr h lt = omega arith
section-pow2 (suc (suc (suc (suc (suc (suc (suc (suc n)))))))) addr h lt = omega arith

-- The table that `for_addr` gives for an address has a descriptor for it: `lookup_l1` does not
-- panic, and gives the entry of the section of 1 MiB that holds the address.
pub lookup_l1-for_addr :
    (r : MmuRegisters) (addr : ℕ)
    → addr < 4294967296
    → lookup_l1 (for_addr r addr) addr ≡ some ((for_addr r addr).table_ptr + 4 * (addr / 1048576))
unfolding lookup_l1 for_addr virtual_addr_uses_tt0
lookup_l1-for_addr r addr small = elim (Bool-cases (virtual_addr_uses_tt0 r.ttbcr addr)) [
  | inl e ↦ ground (arith, e, section-pow2 (tt0_boundary r.ttbcr) addr (omega arith))
  | inr e ↦ ground (arith, e, section-pow2 0 addr (omega arith))
]

section-boundary :
    (n addr : ℕ) → n < 8 → has_leading_zeros (align_down addr 1048576) n ≡ has_leading_zeros addr n
unfolding pow2
section-boundary zero addr h = ground arith
section-boundary (suc zero) addr h = ground arith
section-boundary (suc (suc zero)) addr h = ground arith
section-boundary (suc (suc (suc zero))) addr h = ground arith
section-boundary (suc (suc (suc (suc zero)))) addr h = ground arith
section-boundary (suc (suc (suc (suc (suc zero))))) addr h = ground arith
section-boundary (suc (suc (suc (suc (suc (suc zero)))))) addr h = ground arith
section-boundary (suc (suc (suc (suc (suc (suc (suc zero))))))) addr h = ground arith
section-boundary (suc (suc (suc (suc (suc (suc (suc (suc n)))))))) addr h = absurd (omega arith)

-- All addresses of a section have the same table.
pub for_addr-align_down :
    (r : MmuRegisters) (addr : ℕ) → for_addr r (align_down addr 1048576) ≡ for_addr r addr
unfolding for_addr virtual_addr_uses_tt0
for_addr-align_down r addr = rw (section-boundary (tt0_boundary r.ttbcr) addr (omega arith)) refl
