-- ===== src/Sys/Bare.antt =====
-- A program without an operating system (src/sys/bare.rs): one thread, whose registers the debugger
-- holds itself.
use v5gdb.Base.{ℕ, Bool, some, List, [], ◌∷◌, ◌==◌}
use v5gdb.Arch.{ArmRegisterId}
use v5gdb.Exceptions.{DebugEventContext}
use v5gdb.Target.Saved.{SavedRegister}
use v5gdb.Sys.{SystemResult, no_such_tid}
use v5gdb.Sys.Interface.{DebuggerSystem, Saves}

abbrev pub current_thread : ℕ
current_thread = 1

unfoldable pub thread_exists : ℕ → Bool
thread_exists tid = tid == current_thread

abbrev pub all_threads : List ℕ
all_threads = current_thread ∷ []

unfoldable pub read_registers : ℕ → SystemResult DebugEventContext
read_registers tid = no_such_tid

unfoldable pub write_registers : ℕ → DebugEventContext → SystemResult (Unit {0})
write_registers tid registers = no_such_tid

unfoldable pub read_single_register : ℕ → ArmRegisterId → SystemResult SavedRegister
read_single_register tid id = no_such_tid

unfoldable pub write_single_register : ℕ → ArmRegisterId → SavedRegister → SystemResult (Unit {0})
write_single_register tid id value = no_such_tid

unfoldable pub read_thread_name : ℕ → ℕ → SystemResult (List ℕ)
read_thread_name tid len = no_such_tid

-- `BareSystem`
abbrev pub bare : DebuggerSystem
unfolding thread_exists read_registers write_registers read_single_register write_single_register
    read_thread_name
bare = record {
  current_thread = current_thread;
  thread_exists = thread_exists;
  all_threads = all_threads;
  read_thread_name = read_thread_name;
  read_registers = λ tid m. some (read_registers tid);
  write_registers = λ tid regs m. some (write_registers tid regs, m);
  read_single_register = λ tid id m. some (read_single_register tid id);
  write_single_register = λ tid id value m. some (write_single_register tid id value, m);
}

-- No thread is saved.
abbrev pub bare-Saves : Saves bare
bare-Saves = record { IsSaved = λ _ _ _ _. ⊥; back = λ _ _ _ _ h. elim h [ ] }
