-- ===== src/Sys/FreeRtos.antt =====
-- The saved state of tasks under FreeRTOS (src/sys/freertos). The list of tasks is what
-- `uxTaskGetSystemState` gives. `none` is a panic.
pub mod Layout
pub mod Rewrite
pub mod Registers
pub mod System
pub mod Monitor
use v5gdb.Base.{
  ℕ, zero, suc, ◌+◌, ◌-◌, ◌%◌, Bool, true, false, not, ◌&&◌, Option, none, some, List, [], ◌∷◌,
  ◌++◌, map, ◌>>=◌, take, drop, length, min, ◌==◌, if◌then◌else◌, Memory, load, store, to_le_bytes,
  from_le_bytes, u32_mod,
}
use v5gdb.Cpu.Instruction.{read_word}
use v5gdb.Exceptions.{DebugEventContext}
use v5gdb.Exceptions.Serial.{send_all}
use v5gdb.Sys.{SystemResult, found, no_such_tid}

-- `eTaskState`
abbrev pub running : ℕ
running = 0

abbrev pub ready : ℕ
ready = 1

abbrev pub blocked : ℕ
blocked = 2

abbrev pub suspended : ℕ
suspended = 3

abbrev pub deleted : ℕ
deleted = 4

-- `TaskStatus_t`, with the address of the task's control block, and the bytes at `pcTaskName` where
-- this is not null.
pub record TaskStatus : Type 0 where
  pub handle : ℕ
  pub name : List ℕ
  pub task_number : ℕ
  pub current_state : ℕ
  pub current_priority : ℕ
  pub stack_high_water_mark : ℕ
  pub name_is_null : Bool

-- The size of `SavedTaskContextFPU`, and the place of its `ulCriticalNesting`.
abbrev pub context_size : ℕ
context_size = 332

abbrev pub nesting_offset : ℕ
nesting_offset = 264

unfoldable pub stack_ptr : TaskStatus → Memory → ℕ
unfolding read_word
stack_ptr t m = read_word m t.handle

-- `sp`
unfoldable pub sp : TaskStatus → Memory → ℕ
unfolding stack_ptr
sp t m = (stack_ptr t m + context_size) % u32_mod

-- `saved_context`: the address of the context, whose first word is `ulPortTaskHasFPUContext`.
unfoldable pub saved_context : TaskStatus → Memory → Option ℕ
unfolding stack_ptr
saved_context t m = if read_word m (stack_ptr t m) == 0 then none else some (stack_ptr t m)

-- The place of the saved context under a stack pointer.
abbrev pub context_under : ℕ → ℕ
context_under v = (v + u32_mod - context_size) % u32_mod

-- `set_sp`
unfoldable pub set_sp : TaskStatus → ℕ → Bool → Memory → Option Memory
unfolding saved_context
set_sp t v update_ctx m = do
  old_ctx ← saved_context t m
  let m' = store m t.handle (to_le_bytes 4 (context_under v))
  some (if update_ctx then store m' (context_under v) (load m' old_ctx context_size) else m')

-- `lookup_saved_task`, on the tasks of `scan_tasks`
unfoldable pub find_task : ℕ → List TaskStatus → Option TaskStatus
find_task tid [] = none
find_task tid (t ∷ tasks) =
    if t.task_number == tid && not (t.current_state == deleted) then some t else find_task tid tasks

unfoldable pub lookup_saved_task : ℕ → List TaskStatus → Option (SystemResult TaskStatus)
unfolding find_task
lookup_saved_task tid tasks = elim (find_task tid tasks) [
  | none ↦ some no_such_tid
  | some t ↦ if t.current_state == running then none else some (found t)
]

-- `all_threads`
unfoldable pub all_threads : List TaskStatus → List ℕ
all_threads [] = []
all_threads (t ∷ tasks) =
    let rest = all_threads tasks in
    if t.current_state == deleted then rest else t.task_number ∷ rest

-- `thread_exists`, which looks at the first task with the number
unfoldable pub thread_exists : ℕ → List TaskStatus → Bool
thread_exists tid [] = false
thread_exists tid (t ∷ tasks) =
    let rest = thread_exists tid tasks in
    if t.task_number == tid then not (t.current_state == deleted) else rest

-- `read_thread_name`: the bytes that fit
unfoldable pub read_thread_name : ℕ → List TaskStatus → ℕ → SystemResult (List ℕ)
read_thread_name tid [] len = no_such_tid
read_thread_name tid (t ∷ tasks) len =
    let rest = read_thread_name tid tasks len in
    if t.task_number == tid then found (take (min (length t.name) len) t.name) else rest

-- Registers of `n` bytes each, in memory.
unfoldable pub read_array : Memory → ℕ → ℕ → ℕ → List ℕ
read_array m n addr zero = []
read_array m n addr (suc count) = from_le_bytes (load m addr n) ∷ read_array m n (addr + n) count

-- `SavedTaskContextFPU::new`, as bytes: the flag, the floating-point registers with the upper half
-- first, then the others.
unfoldable pub context_bytes : DebugEventContext → ℕ → List ℕ
unfolding send_all
context_bytes regs critical_nesting =
    to_le_bytes 4 1
    ++ (to_le_bytes 4 regs.fpscr
        ++ (send_all 8 (drop 16 regs.vfp_registers)
            ++ (send_all 8 (take 16 regs.vfp_registers)
                ++ (to_le_bytes 4 critical_nesting
                    ++ (send_all 4 regs.registers
                        ++ (to_le_bytes 4 regs.link_register
                            ++ (to_le_bytes 4 regs.program_counter ++ to_le_bytes 4 regs.cpsr)))))))

-- The context at an address, with the task's stack pointer.
unfoldable pub context_at : Memory → ℕ → ℕ → DebugEventContext
unfolding read_array read_word
context_at m ctx v = record {
  cpsr = read_word m (ctx + 328);
  stack_pointer = v;
  link_register = read_word m (ctx + 320);
  fpscr = read_word m (ctx + 4);
  vfp_registers = read_array m 8 (ctx + 136) 16 ++ read_array m 8 (ctx + 8) 16;
  registers = read_array m 4 (ctx + 268) 13;
  program_counter = read_word m (ctx + 324);
}

-- `read_registers`
unfoldable pub read_registers :
    ℕ → List TaskStatus → Memory → Option (SystemResult DebugEventContext)
unfolding lookup_saved_task saved_context context_at sp
read_registers tid tasks m = lookup_saved_task tid tasks >>= of_task
  where
    of_task : SystemResult TaskStatus → Option (SystemResult DebugEventContext)
    of_task no_such_tid = some no_such_tid
    of_task (found t) = do ctx ← saved_context t m; some (found (context_at m ctx (sp t m)))

-- `write_registers` of a task that was found.
unfoldable pub write_task : TaskStatus → DebugEventContext → Memory → Option Memory
unfolding saved_context set_sp context_bytes read_word
write_task t registers m = do
  old_ctx ← saved_context t m
  let critical_nesting = read_word m (old_ctx + nesting_offset)
  m' ← set_sp t registers.stack_pointer false m
  ctx ← saved_context t m'
  some (store m' ctx (context_bytes registers critical_nesting))

-- `write_registers`
unfoldable pub write_registers :
    ℕ → List TaskStatus → DebugEventContext → Memory → Option (SystemResult (Unit {0}) × Memory)
unfolding lookup_saved_task write_task
write_registers tid tasks registers m = lookup_saved_task tid tasks >>= of_task
  where
    of_task : SystemResult TaskStatus → Option (SystemResult (Unit {0}) × Memory)
    of_task no_such_tid = some (no_such_tid, m)
    of_task (found t) = do m' ← write_task t registers m; some (found tt, m')
