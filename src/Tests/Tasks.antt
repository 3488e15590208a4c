-- ===== src/Tests/Tasks.antt =====
-- The registers of a task at a concrete input.
use v5gdb.Base.{
  ℕ, ◌<◌, ◌≡◌, ◌≢◌, ◌^◌, refl, subst, false, none, some, some_inj, [], ◌∷◌, ◌==◌, if◌then◌else◌,
  Memory, from_le_bytes, arith,
}
use v5gdb.Arch.{lr, size}
use v5gdb.Cpu.Instruction.{read_word}
use v5gdb.Exceptions.{DebugEventContext}
use v5gdb.Exceptions.Serial.RoundTrip.{IsContext}
use v5gdb.Sys.FreeRtos.{TaskStatus, lookup_saved_task, saved_context, write_registers}
use v5gdb.Sys.FreeRtos.Rewrite.Place.{moved, Rewritten, write_registers_rewrites}
use v5gdb.Sys.FreeRtos.Registers.Back.{IsSavedTask}
use v5gdb.Sys.FreeRtos.System.{free_rtos, free_rtos-Saves}
use v5gdb.Sys.Interface.{DebuggerSystem}
use v5gdb.Target.{V5Target}
use v5gdb.Target.Registers.{done}
use v5gdb.Target.Saved.{u32, from_le_bytes_checked}
use v5gdb.Target.Threads.{accessed, read_thread_register, write_thread_register}
use v5gdb.Target.Threads.Back.{read_thread_register-write_thread_register}
use v5gdb.Tests.Hardware.{running}
use v5gdb.Tests.Sessions.{full, full-IsContext}

-- A task whose control block is at 0x100, with its context at 0x1000.
abbrev task : TaskStatus
task = record {
  handle = 0x100;
  name = [];
  task_number = 3;
  current_state = 2;
  current_priority = 8;
  stack_high_water_mark = 512;
  name_is_null = false;
}

abbrev memory : Memory
memory a = if a == 0x101 then 0x10 else if a == 0x1000 then 1 else if a == 0x2000 then 7 else 0

in_bytes : (a : ℕ) → memory a < 256
in_bytes a = ground arith

abbrev registers : DebugEventContext
registers = record full { stack_pointer = 8524 }

registers-IsContext : IsContext registers
registers-IsContext = record {
  cpsr_small = full-IsContext.cpsr_small;
  sp_small = omega arith;
  lr_small = full-IsContext.lr_small;
  fpscr_small = full-IsContext.fpscr_small;
  pc_small = full-IsContext.pc_small;
  registers_small = full-IsContext.registers_small;
  vfp_small = full-IsContext.vfp_small;
  num_registers = refl;
  num_vfp = refl;
}

write_registers_rewrites_example :
    let there = read_word (moved task registers memory) 0x2000 in
    (there ≢ 0 → Rewritten 3 (task ∷ []) registers memory)
    × (there ≡ 0 → write_registers 3 (task ∷ []) registers memory ≡ none)
unfolding lookup_saved_task saved_context read_word
write_registers_rewrites_example =
    write_registers_rewrites 3 (task ∷ []) registers memory task 0x1000 registers-IsContext in_bytes
      refl refl (λ i h. ground arith)

abbrev system : DebuggerSystem
system = free_rtos 1 (task ∷ [])

abbrev target : V5Target
target = record running { exception_ctx = full }

-- The link register of the task holds any value.
lr_saved : (v : ℕ) → v < 2 ^ 32 → IsSavedTask (task ∷ []) 3 lr (u32 v) memory
unfolding lookup_saved_task saved_context read_word
lr_saved v h = record {
  task = task;
  ctx = 0x1000;
  looked_up = refl;
  saved = refl;
  fits = h;
  clear = λ i lt. ground arith;
  clear_after = λ i lt. ground arith;
}

read_thread_register-write_thread_register_example :
    (t' : V5Target) × (m' : Memory) × (write_thread_register system 3 lr
        (0x78 ∷ 0x56 ∷ 0x34 ∷ 0x12 ∷ [])
        target
        memory
      ≡ some (accessed (done tt), t', m'))
    × (read_thread_register system 3 lr 4 t' m'
        ≡ some (accessed (done (0x78 ∷ 0x56 ∷ 0x34 ∷ 0x12 ∷ []))))
unfolding from_le_bytes_checked from_le_bytes size
read_thread_register-write_thread_register_example =
    read_thread_register-write_thread_register system (free_rtos-Saves 1 (task ∷ [])) 3 lr
      (0x78 ∷ 0x56 ∷ 0x34 ∷ 0x12 ∷ []) target memory (refl, refl) refl refl
      (omega arith, (omega arith, (omega arith, (omega arith, tt))))
      (λ reg e _.
        subst (λ r. IsSavedTask (task ∷ []) 3 lr r memory) (some_inj e)
          (lr_saved 0x12345678 (omega arith)))
