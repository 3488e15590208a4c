-- ===== src/Debugger/Callbacks.antt =====
-- What gdbstub may do to the program and the target while the console runs: the calls it makes of
-- the target's interfaces (src/gdb_target/{mod,memory,resume,monitor,single_register_access}.rs and
-- src/gdb_target/breakpoint). Calls that read are left out: they change nothing.
pub mod Paused
use v5gdb.Base.{ℕ, ◌≡◌, Bool, false, some, List, Memory}
use v5gdb.Arch.{ArmBreakpointKind, ArmRegisterId}
use v5gdb.Exceptions.{DebugEventContext}
use v5gdb.Cpu.Cache.{Machine}
use v5gdb.Cpu.Vmsa.{MmuRegisters}
use v5gdb.Breakpoint.{ok}
use v5gdb.Target.{V5Target}
use v5gdb.Target.Breaks.{add_sw_breakpoint, remove_sw_breakpoint}
use v5gdb.Target.Entry.{request_single_step, add_hw_breakpoint, remove_hw_breakpoint}
use v5gdb.Target.Memory.{write_memory}
use v5gdb.Target.Registers.{resume}
use v5gdb.Target.Threads.{ThreadAccess}
use v5gdb.Sys.Interface.{DebuggerSystem}
use v5gdb.Debugger.{Env}

-- One call. Registers may be written one by one or all at once, those of another thread through the
-- system, which changes memory; `step` is `step_program` and then
-- `resume_program`.
pub data Callback (e : Env) : Env → Type 0 where
  write_registers :
      (ctx : DebugEventContext)
      → Callback e (record e { target = record (e.target) { exception_ctx = ctx } })
  write_addrs :
      (mmu : MmuRegisters) (start : ℕ) (bytes : List ℕ) (written : Bool) (mem : Memory)
      → write_memory mmu e.world.machine.mem start bytes ≡ some (written, mem)
      → Callback e (record e {
        world = record (e.world) { machine = record (e.world.machine) { mem = mem } };
      })
  write_thread_registers :
      (sys : DebuggerSystem) (tid : ℕ) (regs : DebugEventContext) (a : ThreadAccess (Unit {0}))
      (t : V5Target) (mem : Memory)
      → v5gdb.Target.Threads.write_thread_registers sys tid regs e.target e.world.machine.mem
        ≡ some (a, t, mem)
      → Callback e (record {
        target = t;
        world = record (e.world) { machine = record (e.world.machine) { mem = mem } };
      })
  write_thread_register :
      (sys : DebuggerSystem) (tid : ℕ) (id : ArmRegisterId) (val : List ℕ)
      (a : ThreadAccess (Unit {0})) (t : V5Target) (mem : Memory)
      → v5gdb.Target.Threads.write_thread_register sys tid id val e.target e.world.machine.mem
        ≡ some (a, t, mem)
      → Callback e (record {
        target = t;
        world = record (e.world) { machine = record (e.world.machine) { mem = mem } };
      })
  add_sw :
      (addr : ℕ) (kind : ArmBreakpointKind) (b : Bool) (t : V5Target) (m : Machine)
      → add_sw_breakpoint addr kind e.target e.world.machine ≡ some (b, t, m)
      → Callback e (record { target = t; world = record (e.world) { machine = m } })
  remove_sw :
      (addr : ℕ) (b : Bool) (t : V5Target) (m : Machine)
      → remove_sw_breakpoint addr false e.target e.world.machine ≡ (b, t, m)
      → Callback e (record { target = t; world = record (e.world) { machine = m } })
  add_hw :
      (addr : ℕ) (kind : ArmBreakpointKind) (b : Bool) (t : V5Target)
      → add_hw_breakpoint addr kind e.target ≡ some (b, t)
      → Callback e (record e { target = t })
  remove_hw :
      (addr : ℕ) (kind : ArmBreakpointKind) (b : Bool) (t : V5Target)
      → remove_hw_breakpoint addr kind e.target ≡ some (b, t)
      → Callback e (record e { target = t })
  step_program :
      (t : V5Target)
      → request_single_step e.target ≡ some (ok tt, t)
      → Callback e (record e { target = t })
  resume_program : Callback e (record e { target = resume e.target })
  set_autostop :
      (b : Bool) → Callback e (record e { target = record (e.target) { stop_motors_on_break = b } })

-- Any number of calls.
pub data Callbacks (e : Env) : Env → Type 0 where
  none_made : Callbacks e e
  call : {e' e'' : Env} → Callbacks e e' → Callback e' e'' → Callbacks e e''
