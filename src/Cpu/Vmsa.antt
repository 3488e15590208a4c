-- ===== src/Cpu/Vmsa.antt =====
-- Virtual memory (src/cpu/vmsa.rs): the translation tables and what they permit. A register is its
-- raw value, and `none` is the panic of a failed assertion.
pub mod Lookup
pub mod Attributes
use v5gdb.Base.{
  ℕ, zero, suc, ◌+◌, ◌-◌, ◌*◌, ◌/◌, ◌%◌, Bool, true, false, ◌&&◌, ◌||◌, Option, none, some, ◌>>=◌,
  leb, ltb, ◌==◌, if◌then◌else◌, align_down, Memory,
}
use v5gdb.Cpu.Instruction.{read_word}

-- The registers of the MMU: `TranslationTableBaseControlRegister`, `TranslationTableBaseRegister`
-- number 0 and 1, and `DomainAccessControlRegister`.
pub record MmuRegisters : Type 0 where
  pub ttbcr : ℕ
  pub ttbr0 : ℕ
  pub ttbr1 : ℕ
  pub dacr : ℕ

unfoldable pub pow2 : ℕ → ℕ
pow2 zero = 1
pow2 (suc n) = 2 * pow2 n

-- `tt0_boundary`: bits 0..=2
abbrev pub tt0_boundary : ℕ → ℕ
tt0_boundary ttbcr = ttbcr % 8

-- `addr.leading_zeros() >= n`
abbrev pub has_leading_zeros : ℕ → ℕ → Bool
has_leading_zeros addr n = ltb addr (pow2 (32 - n))

unfoldable pub virtual_addr_uses_tt0 : ℕ → ℕ → Bool
unfolding pow2
virtual_addr_uses_tt0 ttbcr addr = has_leading_zeros addr (tt0_boundary ttbcr)

-- `TranslationTableBaseRegister::base_ptr`: the bits below `14 - tt_boundary`, and below 7, cleared.
unfoldable pub base_ptr : ℕ → ℕ → ℕ
unfolding pow2
base_ptr ttbr boundary = align_down (align_down ttbr (pow2 (14 - boundary))) 128

pub record TranslationTable : Type 0 where
  pub tt_boundary : ℕ
  pub table_ptr : ℕ
  pub num_entries : ℕ

-- `TranslationTable::for_addr`
unfoldable pub for_addr : MmuRegisters → ℕ → TranslationTable
unfolding virtual_addr_uses_tt0 base_ptr pow2
for_addr r addr =
    if virtual_addr_uses_tt0 r.ttbcr addr
    then table (tt0_boundary r.ttbcr) r.ttbr0
    else table 0 r.ttbr1
  where
    table : ℕ → ℕ → TranslationTable
    table boundary ttbr = record {
      tt_boundary = boundary;
      table_ptr = base_ptr ttbr boundary;
      num_entries = pow2 (32 - 20 - boundary);
    }

-- `lookup_l1`: the address of the descriptor, whose size is 4.
unfoldable pub lookup_l1 : TranslationTable → ℕ → Option ℕ
unfolding pow2
lookup_l1 tt addr =
    if has_leading_zeros addr tt.tt_boundary
    then (if ltb (addr / 1048576) tt.num_entries
        then some (tt.table_ptr + 4 * (addr / 1048576))
        else none)
    else none

-- `L1Descriptor::as_section`: the raw value, if bits 0..=1 say that it is a section.
unfoldable pub as_section : ℕ → Option ℕ
as_section raw = if raw % 4 == 2 then some raw else none

pub data AccessPermissions : Type 0 where
  no_access pl1_access_only pl1_access_user_read all_access : AccessPermissions
  read_only_pl1_access_only read_only_pl1_access_user_read read_only_all_access : AccessPermissions

unfoldable pub permissions_of_raw : ℕ → Option AccessPermissions
permissions_of_raw raw =
    if raw == 0
    then some no_access
    else if raw == 1
    then some pl1_access_only
    else if raw == 2
    then some pl1_access_user_read
    else if raw == 3
    then some all_access
    else if raw == 5
    then some read_only_pl1_access_only
    else if raw == 6
    then some read_only_pl1_access_user_read
    else if raw == 7
    then some read_only_all_access
    else none

-- `SectionDescriptor::access_permissions`: bits 10..=11, and bit 15 above them
unfoldable pub access_permissions : ℕ → Option AccessPermissions
unfolding permissions_of_raw
access_permissions section = permissions_of_raw (section / 1024 % 4 + section / 32768 % 2 * 4)

unfoldable pub test_write : AccessPermissions → Bool → Bool
test_write all_access pl1 = true
test_write pl1_access_only pl1 = pl1
test_write pl1_access_user_read pl1 = pl1
test_write _ pl1 = false

unfoldable pub test_read : AccessPermissions → Bool → Bool
unfolding test_write
test_read p pl1 = if test_write p pl1 then true else restricted p
  where
    restricted : AccessPermissions → Bool
    restricted read_only_all_access = true
    restricted read_only_pl1_access_user_read = true
    restricted pl1_access_user_read = true
    restricted read_only_pl1_access_only = pl1
    restricted _ = false

-- `DomainPermission`, by its bits
pub data DomainPermission : Type 0 where
  no_permission client manager : DomainPermission

unfoldable pub raw_of_permission : DomainPermission → ℕ
raw_of_permission no_permission = 0
raw_of_permission client = 1
raw_of_permission manager = 3

-- The loop of `DomainAccessControlRegister::set_all`; the fields set so far lie below `weight`.
unfoldable pub set_domains : ℕ → ℕ → ℕ → ℕ → ℕ
set_domains bits zero weight raw = raw
set_domains bits (suc rounds) weight raw =
    set_domains bits rounds (4 * weight) (raw + bits * weight)

unfoldable pub set_all : DomainPermission → ℕ
unfolding raw_of_permission set_domains
set_all permission = set_domains (raw_of_permission permission) 16 1 0

-- `with_manager_domain_access`: `inner` runs on any state that holds the registers.
unfoldable pub with_manager_domain_access {ℓ} :
    {A : Type ℓ} → (MmuRegisters → A × MmuRegisters) → MmuRegisters → A × MmuRegisters
unfolding set_all
with_manager_domain_access inner r =
    let (res, r') = inner (record r { dacr = set_all manager }) in
    (res, record r' { dacr = r.dacr })
