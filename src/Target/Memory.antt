-- ===== src/Target/Memory.antt =====
-- Memory access by GDB (src/gdb_target/memory.rs). `none` is the panic of a failed table lookup, or
-- an end of the rounds given to the loop.
pub mod Access
use v5gdb.Base.{
  ℕ, zero, suc, ◌+◌, ◌-◌, ◌*◌, ◌/◌, ◌%◌, Bool, true, false, Option, none, some, List, length, ◌>>=◌,
  ltb, leb, ◌==◌, if◌then◌else◌, align_down, saturating_add, Memory, load, store,
}
use v5gdb.Cpu.Instruction.{read_word}
use v5gdb.Cpu.Vmsa.{
  MmuRegisters, for_addr, lookup_l1, as_section, access_permissions, test_write, test_read,
}

abbrev pub section_size : ℕ
section_size = 1048576

-- Whether the descriptor permits the access: sections only, at privilege level 1.
unfoldable pub permits : Bool → ℕ → Bool
unfolding as_section access_permissions test_write test_read
permits write descriptor = elim (as_section descriptor >>= access_permissions) [
  | none ↦ false
  | some perms ↦ if write then test_write perms true else test_read perms true
]

-- The test of one round of `test_access`.
unfoldable pub can_access : MmuRegisters → Memory → Bool → ℕ → Option Bool
unfolding for_addr lookup_l1 permits read_word
can_access r m write check_addr = do
  ptr ← lookup_l1 (for_addr r check_addr) check_addr
  some (permits write (read_word m ptr))

-- The loop of `test_access`: the bytes from `start` on that can be accessed.
unfoldable pub test_sections : (ℕ → Option Bool) → ℕ → ℕ → ℕ → ℕ → Option ℕ
test_sections can zero start end check_addr = none
test_sections can (suc rounds) start end check_addr =
    let rest = test_sections can rounds start end (saturating_add check_addr section_size) in
    if ltb check_addr end
    then elim (can check_addr) [
      | none ↦ none
      | some true ↦ rest
      | some false ↦ some (check_addr - start)
    ]
    else some (end - start)

-- There are 4096 sections; one more round ends the loop.
unfoldable pub test_access : MmuRegisters → Memory → ℕ → ℕ → Bool → Option ℕ
unfolding test_sections can_access
test_access r m start end write =
    test_sections (can_access r m write) 4097 start end (align_down start section_size)

-- `read_memory`: the bytes that are read.
unfoldable pub read_memory : MmuRegisters → Memory → ℕ → ℕ → Option (List ℕ)
unfolding test_access
read_memory r m start len = do
  readable_bytes ← test_access r m start (saturating_add start len) false
  some (load m start readable_bytes)

-- `write_memory`
unfoldable pub write_memory : MmuRegisters → Memory → ℕ → List ℕ → Option (Bool × Memory)
unfolding test_access store
write_memory r m start bytes = do
  writable_bytes ← test_access r m start (saturating_add start (length bytes)) true
  some (if ltb writable_bytes (length bytes) then (false, m) else (true, store m start bytes))

-- `TargetResult` of an access: a value, or the error `EFAULT`.
pub data AddrsResult (A : Type 0) : Type 0 where
  addrs : A → AddrsResult A
  fault : AddrsResult A

-- `read_addrs`: the bytes that are read; it is an error that there are none.
unfoldable pub read_addrs : MmuRegisters → Memory → ℕ → ℕ → Option (AddrsResult (List ℕ))
unfolding read_memory
read_addrs r m start_addr len = do
  bytes ← read_memory r m start_addr len
  some (if length bytes == 0 then fault else addrs bytes)

-- `write_addrs`
unfoldable pub write_addrs :
    MmuRegisters → Memory → ℕ → List ℕ → Option (AddrsResult (Unit {0}) × Memory)
unfolding write_memory
write_addrs r m start_addr bytes = do
  (written, m') ← write_memory r m start_addr bytes
  some (if written then addrs tt else fault, m')
