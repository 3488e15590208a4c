-- ===== src/Cpu/Vmsa/Attributes.antt =====
-- The memory attributes of a section (src/cpu/vmsa.rs, `SectionDescriptor::mem_attrs`).
use v5gdb.Base.{
  ℕ, ◌+◌, ◌*◌, ◌/◌, ◌%◌, ◌<◌, ◌≡◌, ◌↔◌, Bool, true, false, not, ◌&&◌, Option, none, some, bit,
  weigh, ltb, ◌==◌, if◌then◌else◌, arith,
}

-- `MemoryRegionAttributes`, as far as it is used; the attributes of cacheable memory, inner and
-- outer, by their two bits.
pub data MemoryRegionAttributes : Type 0 where
  strongly_ordered shareable_device non_shareable_device : MemoryRegionAttributes
  write_through_no_write_alloc write_back_no_write_alloc : MemoryRegionAttributes
  non_cacheable write_back_write_alloc : MemoryRegionAttributes
  cacheable_memory : ℕ → ℕ → MemoryRegionAttributes

-- The fields `tex`, bits 12..=14, `c`, bit 3, and `b`, bit 2
abbrev pub tex_field : ℕ → ℕ
tex_field section = section / 4096 % 8

abbrev pub c_field : ℕ → Bool
c_field section = bit section 8

abbrev pub b_field : ℕ → Bool
b_field section = bit section 4

-- The match of `mem_attrs`
unfoldable pub attrs_of : ℕ → Bool → Bool → Option MemoryRegionAttributes
attrs_of tex c b =
    if tex == 0
    then (if c
        then (if b then some write_back_no_write_alloc else some write_through_no_write_alloc)
        else if b
        then some shareable_device
        else some strongly_ordered)
    else if tex == 1 && (not c && not b)
    then some non_cacheable
    else if tex == 1 && (c && b)
    then some write_back_write_alloc
    else if tex == 2 && (not c && not b)
    then some non_shareable_device
    else if tex / 4 == 1
    then some (cacheable_memory (weigh c 2 + weigh b 1) (tex % 4))
    else none

unfoldable pub mem_attrs : ℕ → Option MemoryRegionAttributes
unfolding attrs_of
mem_attrs section = attrs_of (tex_field section) (c_field section) (b_field section)

-- The bits that stand for an attribute: `tex`, then `c`, then `b`, as one number.
abbrev pub code_of : MemoryRegionAttributes → ℕ
code_of strongly_ordered = 0
code_of shareable_device = 1
code_of write_through_no_write_alloc = 2
code_of write_back_no_write_alloc = 3
code_of non_cacheable = 4
code_of write_back_write_alloc = 7
code_of non_shareable_device = 8
code_of (cacheable_memory inner outer) = 16 + 4 * outer + inner

-- The two attributes of cacheable memory have two bits each.
abbrev pub fits : MemoryRegionAttributes → Bool
fits (cacheable_memory inner outer) = ltb inner 4 && ltb outer 4
fits _ = true

-- The attribute and its bits.
abbrev Stands : MemoryRegionAttributes → ℕ → Bool → Bool → Type 0
Stands a tex c b = (fits a ≡ true) × (code_of a ≡ 4 * tex + weigh c 2 + weigh b 1)

attrs_of-Stands :
    (tex : ℕ) (c b : Bool) (a : MemoryRegionAttributes)
    → tex < 8
    → attrs_of tex c b ≡ some a
    → Stands a tex c b
unfolding attrs_of
attrs_of-Stands tex true true a h e = (ground (arith, h, e), ground (arith, h, e))
attrs_of-Stands tex true false a h e = (ground (arith, h, e), ground (arith, h, e))
attrs_of-Stands tex false true a h e = (ground (arith, h, e), ground (arith, h, e))
attrs_of-Stands tex false false a h e = (ground (arith, h, e), ground (arith, h, e))

weigh_small : (c b : Bool) → weigh c 2 + weigh b 1 < 4
weigh_small true true = omega arith
weigh_small true false = omega arith
weigh_small false true = omega arith
weigh_small false false = omega arith

Stands-attrs_of :
    (a : MemoryRegionAttributes) (tex : ℕ) (c b : Bool)
    → Stands a tex c b
    → attrs_of tex c b ≡ some a
unfolding attrs_of
Stands-attrs_of (cacheable_memory inner outer) tex c b (f, e) =
    let small = weigh_small c b in
    let lt : (inner < 4) × (outer < 4) = (ground (arith, f), ground (arith, f)) in
    let inner_same : weigh c 2 + weigh b 1 ≡ inner = omega (arith, small, lt.0, lt.1, e) in
    let outer_same : tex % 4 ≡ outer = omega (arith, small, lt.0, lt.1, e) in
    let high : tex / 4 ≡ 1 = omega (arith, small, lt.0, lt.1, e) in
    ground (arith, inner_same, outer_same, high)
Stands-attrs_of strongly_ordered tex c b (f, e) = ground (arith, e)
Stands-attrs_of shareable_device tex c b (f, e) = ground (arith, e)
Stands-attrs_of non_shareable_device tex c b (f, e) = ground (arith, e)
Stands-attrs_of write_through_no_write_alloc tex c b (f, e) = ground (arith, e)
Stands-attrs_of write_back_no_write_alloc tex c b (f, e) = ground (arith, e)
Stands-attrs_of non_cacheable tex c b (f, e) = ground (arith, e)
Stands-attrs_of write_back_write_alloc tex c b (f, e) = ground (arith, e)

-- The bits of a section that say what memory it is: `tex`, then `c`, then `b`.
abbrev pub attribute_bits : ℕ → ℕ
attribute_bits section =
    4 * tex_field section + weigh (c_field section) 2 + weigh (b_field section) 1

-- `mem_attrs` of a section gives an attribute exactly if it is the one whose bits in the
-- architecture's table stand in the section's fields, with two bits for each attribute of
-- cacheable memory. So it gives none exactly for the patterns that the table reserves.
pub mem_attrs_iff :
    (section : ℕ) (a : MemoryRegionAttributes)
    → (mem_attrs section ≡ some a) ↔ ((fits a ≡ true) × (code_of a ≡ attribute_bits section))
unfolding mem_attrs
mem_attrs_iff section a = (
  attrs_of-Stands (tex_field section) (c_field section) (b_field section) a (omega arith),
  Stands-attrs_of a (tex_field section) (c_field section) (b_field section),
)
