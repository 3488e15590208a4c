-- ===== src/Breakpoint.antt =====
-- What hardware and software breakpoints share (src/gdb_target/breakpoint/mod.rs).
pub mod Hardware
pub mod Software
use v5gdb.Base.{ℕ}

pub data BreakpointError : Type 0 where
  cannot_write already_exists no_space not_aligned_correctly : BreakpointError

pub data Result {ℓ} (A : Type ℓ) : Type ℓ where
  ok : A → Result A
  err : BreakpointError → Result A
