-- ===== src/Sys/FreeRtos/System.antt =====
-- FreeRTOS as the system of a program (src/sys/freertos/mod.rs): its tasks as the scheduler lists them.
use v5gdb.Base.{ℕ, List}
use v5gdb.Sys.Interface.{DebuggerSystem, Saves}
use v5gdb.Sys.FreeRtos.{
  TaskStatus, thread_exists, all_threads, read_thread_name, read_registers, write_registers,
}
use v5gdb.Sys.FreeRtos.Registers.{read_single_register, write_single_register}
use v5gdb.Sys.FreeRtos.Registers.Back.{IsSavedTask, read_single_register-write_single_register}

-- `FreeRtosSystem`, with the number of the running task
abbrev pub free_rtos : ℕ → List TaskStatus → DebuggerSystem
free_rtos current tasks = record {
  current_thread = current;
  thread_exists = λ tid. thread_exists tid tasks;
  all_threads = all_threads tasks;
  read_thread_name = λ tid len. read_thread_name tid tasks len;
  read_registers = λ tid m. read_registers tid tasks m;
  write_registers = λ tid regs m. write_registers tid tasks regs m;
  read_single_register = λ tid id m. read_single_register tid tasks id m;
  write_single_register = λ tid id value m. write_single_register tid tasks id value m;
}

abbrev pub free_rtos-Saves :
    (current : ℕ) (tasks : List TaskStatus) → Saves (free_rtos current tasks)
free_rtos-Saves current tasks = record {
  IsSaved = IsSavedTask tasks;
  back = read_single_register-write_single_register tasks;
}
