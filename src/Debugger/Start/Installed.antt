-- ===== src/Debugger/Start/Installed.antt =====
-- The debugger as it is when the program starts (src/debugger/mod.rs, `new` and `initialize`).
use v5gdb.Base.{ℕ, ◌≡◌, Memory, if◌then◌else◌, Bool, true, false}
use v5gdb.Cpu.Instruction.{arm, thumb16}
use v5gdb.Breakpoint.Software.{SwBreakpoint, bkpt_instr}
use v5gdb.Target.Breaks.View.{covers}
use v5gdb.Target.Breaks.Live.{HoldsBkpt}

-- The breakpoint that a registration in an empty target makes.
pub record IsExitBreak (addr : ℕ) (thumb : Bool) (b : SwBreakpoint) : Type 0 where
  pub at : b.instr_addr ≡ addr
  pub live : b.enabled ≡ true
  pub internal : b.reason.internal ≡ true
  pub not_user : b.reason.user ≡ false
  pub encoding : bkpt_instr b ≡ (if thumb then thumb16 0xbe00 else arm 0xe1200070)

-- The memory with the breakpoint: its instruction, and what was there before everywhere else.
pub record IsWritten (b : SwBreakpoint) (before after : Memory) : Type 0 where
  pub holds : HoldsBkpt b after
  pub elsewhere : (a : ℕ) → covers b a ≡ false → after a ≡ before a
