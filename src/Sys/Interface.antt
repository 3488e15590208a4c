-- ===== src/Sys/Interface.antt =====
-- What the debugger asks of an operating system (src/sys/mod.rs, `DebuggerSystem`): its
-- threads and their registers. `none` is a panic.
use v5gdb.Base.{ℕ, ◌≡◌, Bool, List, Option, some, Memory}
use v5gdb.Arch.{ArmRegisterId}
use v5gdb.Exceptions.{DebugEventContext}
use v5gdb.Target.Saved.{SavedRegister}
use v5gdb.Sys.{SystemResult, found}

-- The operations, on memory.
pub record DebuggerSystem : Type 0 where
  pub current_thread : ℕ
  pub thread_exists : ℕ → Bool
  pub all_threads : List ℕ
  pub read_thread_name : ℕ → ℕ → SystemResult (List ℕ)
  pub read_registers : ℕ → Memory → Option (SystemResult DebugEventContext)
  pub write_registers : ℕ → DebugEventContext → Memory → Option (SystemResult (Unit {0}) × Memory)
  pub read_single_register : ℕ → ArmRegisterId → Memory → Option (SystemResult SavedRegister)
  pub write_single_register :
      ℕ → ArmRegisterId → SavedRegister → Memory → Option (SystemResult (Unit {0}) × Memory)

-- What a system promises of a register that it has saved.
pub record Saves (sys : DebuggerSystem) : Type 1 where
  pub IsSaved : ℕ → ArmRegisterId → SavedRegister → Memory → Type 0
  pub back :
      (tid : ℕ) (id : ArmRegisterId) (value : SavedRegister) (m : Memory)
      → IsSaved tid id value m
      → (m' : Memory) × (sys.write_single_register tid id value m ≡ some (found tt, m'))
        × (sys.read_single_register tid id m' ≡ some (found value))
