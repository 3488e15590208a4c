-- ===== src/Exceptions.antt =====
-- The state of the program that a debug event captures (src/exceptions/mod.rs).
pub mod Serial
pub mod Poll
use v5gdb.Base.{ℕ, Bool, bit, List}

-- `DebugEventContext`; `cpsr` is the raw value of the `ProgramStatus` register.
pub record DebugEventContext : Type 0 where
  pub cpsr : ℕ
  pub stack_pointer : ℕ
  pub link_register : ℕ
  pub fpscr : ℕ
  pub vfp_registers : List ℕ
  pub registers : List ℕ
  pub program_counter : ℕ

-- `cpsr.thumb()`: bit 5
abbrev pub thumb : DebugEventContext → Bool
thumb ctx = bit ctx.cpsr 32
