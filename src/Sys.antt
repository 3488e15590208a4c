-- ===== src/Sys.antt =====
-- The operating system under the debugged program (src/sys).
pub mod Bare
pub mod FreeRtos
pub mod Interface
use v5gdb.Base.{ℕ}

-- `Result<_, SystemError>`; there is one error.
pub data SystemResult (A : Type 0) : Type 0 where
  found : A → SystemResult A
  no_such_tid : SystemResult A
