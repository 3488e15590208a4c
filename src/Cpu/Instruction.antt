-- ===== src/Cpu/Instruction.antt =====
-- CPU instructions in memory (src/cpu/instruction.rs). A pointer is an address, a volatile access
-- reads or writes little-endian bytes, and `none` is the panic of a failed assertion.
use v5gdb.Base.{
  ℕ, ◌+◌, ◌*◌, ◌/◌, ◌%◌, Bool, true, false, ◌&&◌, Option, none, some, List, ◌++◌, ◌==◌, leb,
  if◌then◌else◌, Memory, store, load, to_le_bytes, from_le_bytes,
}

pub data Instruction : Type 0 where
  arm : ℕ → Instruction
  thumb16 : ℕ → Instruction
  thumb32 : ℕ → ℕ → Instruction

-- `matches!(halfword >> 11, 0b11101..=0b11111)`
unfoldable pub is_thumb32 : ℕ → Bool
is_thumb32 halfword = leb 29 (halfword / 2048) && leb (halfword / 2048) 31

unfoldable pub is_thumb : Instruction → Bool
is_thumb (arm _) = false
is_thumb (thumb16 _) = true
is_thumb (thumb32 _ _) = true

-- The size in bytes.
unfoldable pub size : Instruction → ℕ
size (arm _) = 4
size (thumb16 _) = 2
size (thumb32 _ _) = 4

-- `bytemuck::must_cast` of two halfwords puts the first one in the low half.
unfoldable pub as_usize : Instruction → ℕ
as_usize (arm i) = i
as_usize (thumb16 i) = i
as_usize (thumb32 h1 h2) = h1 + 65536 * h2

unfoldable pub read_halfword : Memory → ℕ → ℕ
unfolding load from_le_bytes
read_halfword m addr = from_le_bytes (load m addr 2)

unfoldable pub read_word : Memory → ℕ → ℕ
unfolding load from_le_bytes
read_word m addr = from_le_bytes (load m addr 4)

-- A Thumb instruction by its first halfword; the second is looked at for a long one only.
unfoldable pub thumb_at : ℕ → ℕ → Instruction
unfolding is_thumb32
thumb_at hw1 hw2 = if is_thumb32 hw1 then thumb32 hw1 hw2 else thumb16 hw1

-- `Instruction::read`: the asserts are that the address is not null and is aligned.
unfoldable pub read : Memory → ℕ → Bool → Option Instruction
unfolding thumb_at read_halfword read_word
read m addr true =
    if addr == 0
    then none
    else if addr % 2 == 0
    then some (thumb_at (read_halfword m addr) (read_halfword m (addr + 2)))
    else none
read m addr false =
    if addr == 0 then none else if addr % 4 == 0 then some (arm (read_word m addr)) else none

-- The bytes that `write_to` writes.
unfoldable pub bytes : Instruction → List ℕ
unfolding to_le_bytes
bytes (arm i) = to_le_bytes 4 i
bytes (thumb16 i) = to_le_bytes 2 i
bytes (thumb32 h1 h2) = to_le_bytes 2 h1 ++ to_le_bytes 2 h2

-- `Instruction::write_to`
unfoldable pub write_to : Instruction → ℕ → Memory → Memory
unfolding store bytes
write_to i addr m = store m addr (bytes i)
