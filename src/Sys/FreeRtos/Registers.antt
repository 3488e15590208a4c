-- ===== src/Sys/FreeRtos/Registers.antt =====
-- Single registers of a switched-out task (src/sys/freertos/mod.rs). `none` is a panic.
pub mod Back
use v5gdb.Base.{
  ℕ, ◌+◌, ◌-◌, ◌*◌, Bool, true, false, Option, none, some, List, length, ltb, ◌>>=◌, ◌==◌,
  if◌then◌else◌, Memory, load, store, to_le_bytes, from_le_bytes,
}
use v5gdb.Arch.{ArmRegisterId, gpr, sp, lr, pc, cpsr, fpr, fpscr}
use v5gdb.Cpu.Instruction.{read_word}
use v5gdb.Target.Saved.{SavedRegister, u32, u64, unwrap_u32, unwrap_u64}
use v5gdb.Sys.{SystemResult, found, no_such_tid}
use v5gdb.Sys.FreeRtos
use v5gdb.Sys.FreeRtos.{TaskStatus, lookup_saved_task, saved_context, set_sp}

-- The field of the context that holds a floating-point register: the upper half comes first.
abbrev pub fpr_addr : ℕ → ℕ → ℕ
fpr_addr ctx i = if ltb i 16 then ctx + 136 + 8 * i else ctx + 8 + 8 * (i - 16)

unfoldable pub read_u32 : Memory → ℕ → SavedRegister
read_u32 m a = u32 (from_le_bytes (load m a 4))

unfoldable pub read_u64 : Memory → ℕ → SavedRegister
read_u64 m a = u64 (from_le_bytes (load m a 8))

-- `read_single_register` of a task with its context; an index out of an array's range panics.
unfoldable pub read_of_task : TaskStatus → ℕ → ArmRegisterId → Memory → Option SavedRegister
unfolding read_u32 read_u64 FreeRtos.sp
read_of_task t ctx (gpr i) m = if ltb i 13 then some (read_u32 m (ctx + 268 + 4 * i)) else none
read_of_task t ctx lr m = some (read_u32 m (ctx + 320))
read_of_task t ctx pc m = some (read_u32 m (ctx + 324))
read_of_task t ctx cpsr m = some (read_u32 m (ctx + 328))
read_of_task t ctx (fpr i) m = if ltb i 32 then some (read_u64 m (fpr_addr ctx i)) else none
read_of_task t ctx fpscr m = some (read_u32 m (ctx + 4))
read_of_task t ctx sp m = some (u32 (FreeRtos.sp t m))

-- A field that is written.
unfoldable pub put_u32 : SavedRegister → ℕ → Memory → Option Memory
put_u32 value a m = do v ← unwrap_u32 value; some (store m a (to_le_bytes 4 v))

unfoldable pub put_u64 : SavedRegister → ℕ → Memory → Option Memory
put_u64 value a m = do v ← unwrap_u64 value; some (store m a (to_le_bytes 8 v))

-- `write_single_register` of a task with its context.
unfoldable pub write_of_task :
    TaskStatus → ℕ → ArmRegisterId → SavedRegister → Memory → Option Memory
unfolding put_u32 put_u64 set_sp
write_of_task t ctx (gpr i) value m = if ltb i 13 then put_u32 value (ctx + 268 + 4 * i) m else none
write_of_task t ctx lr value m = put_u32 value (ctx + 320) m
write_of_task t ctx pc value m = put_u32 value (ctx + 324) m
write_of_task t ctx cpsr value m = put_u32 value (ctx + 328) m
write_of_task t ctx (fpr i) value m = if ltb i 32 then put_u64 value (fpr_addr ctx i) m else none
write_of_task t ctx fpscr value m = put_u32 value (ctx + 4) m
write_of_task t ctx sp value m = do v ← unwrap_u32 value; set_sp t v true m

-- `read_single_register`
unfoldable pub read_single_register :
    ℕ → List TaskStatus → ArmRegisterId → Memory → Option (SystemResult SavedRegister)
unfolding lookup_saved_task saved_context read_of_task
read_single_register tid tasks id m = lookup_saved_task tid tasks >>= of_task
  where
    of_task : SystemResult TaskStatus → Option (SystemResult SavedRegister)
    of_task no_such_tid = some no_such_tid
    of_task (found t) = do
      ctx ← saved_context t m
      value ← read_of_task t ctx id m
      some (found value)

-- `write_single_register`
unfoldable pub write_single_register :
    ℕ
    → List TaskStatus
    → ArmRegisterId
    → SavedRegister
    → Memory
    → Option (SystemResult (Unit {0}) × Memory)
unfolding lookup_saved_task saved_context write_of_task
write_single_register tid tasks id value m = lookup_saved_task tid tasks >>= of_task
  where
    of_task : SystemResult TaskStatus → Option (SystemResult (Unit {0}) × Memory)
    of_task no_such_tid = some (no_such_tid, m)
    of_task (found t) = do
      ctx ← saved_context t m
      m' ← write_of_task t ctx id value m
      some (found tt, m')
