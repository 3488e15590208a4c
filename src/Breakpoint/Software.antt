-- ===== src/Breakpoint/Software.antt =====
-- One software breakpoint (src/gdb_target/breakpoint/software.rs): its record and its methods.
use v5gdb.Base.{ℕ, Bool, true, false, not, ◌&&◌, Option, some, ◌>>=◌, same, if◌then◌else◌}
use v5gdb.Cpu.Instruction.{Instruction, arm, thumb16, read, write_to, is_thumb}
use v5gdb.Cpu.Cache.{Machine, CacheTarget, address}

-- Why a breakpoint exists.
pub record BreakpointReason : Type 0 where
  pub user : Bool
  pub internal : Bool

-- `BreakpointReason::new`
abbrev pub reason_new : Bool → BreakpointReason
reason_new internal = record { user = not internal; internal = internal }

unfoldable pub unwanted : BreakpointReason → Bool
unwanted r = not r.user && not r.internal

pub record SwBreakpoint : Type 0 where
  pub enabled : Bool
  pub instr_addr : ℕ
  pub instr_backup : Instruction
  pub reason : BreakpointReason

-- `ARM_INSTR` and `THUMB_INSTR`: the encodings of `bkpt`
abbrev pub arm_instr : Instruction
arm_instr = arm 0xe1200070

abbrev pub thumb_instr : Instruction
thumb_instr = thumb16 0xbe00

-- `SwBreakpoint::new`; `none` is the panic of `Instruction::read`.
unfoldable pub new : Machine → ℕ → Bool → Bool → Option SwBreakpoint
new s addr thumb internal = do
  backup ← read s.mem addr thumb
  some (record {
    enabled = false;
    instr_addr = addr;
    instr_backup = backup;
    reason = reason_new internal;
  })

-- The instruction that replaces the original one.
abbrev pub bkpt_instr : SwBreakpoint → Instruction
bkpt_instr b = if is_thumb b.instr_backup then thumb_instr else arm_instr

-- `SwBreakpoint::set_enabled`
unfoldable pub set_enabled : Bool → SwBreakpoint → Machine → SwBreakpoint × Machine
set_enabled on b s =
    if same b.enabled on
    then (b, s)
    else (record b { enabled = on }, record s { mem = write_to (written on) b.instr_addr s.mem })
  where
    written : Bool → Instruction
    written true = bkpt_instr b
    written false = b.instr_backup

abbrev pub cache_target : SwBreakpoint → CacheTarget
cache_target b = address b.instr_addr
