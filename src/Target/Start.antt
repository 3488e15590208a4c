-- ===== src/Target/Start.antt =====
-- The target as `V5Target::new` makes it (src/gdb_target/mod.rs).
use v5gdb.Base.{◌<◌, ◌≡◌, refl, true, false, Option, none, some, ◌>>=◌, replicate, arith, Memory}
use v5gdb.Exceptions.{DebugEventContext}
use v5gdb.Cpu.Debug.{DebugId, DebugLogic}
use v5gdb.Breakpoint.Hardware.{locked, setup}
use v5gdb.Breakpoint.Hardware.Reset.{setup-IsIdle, IsIdle-IsValid, IsIdle-armed, IsIdle-available}
use v5gdb.Target.{V5Target, resuming_program, other}
use v5gdb.Target.Reserve.{step_place}
use v5gdb.Target.Stepping.{Ready}
use v5gdb.Target.Breaks.View.{Apart, Held}

-- `DebugEventContext::default()`
abbrev default_context : DebugEventContext
default_context = record {
  cpsr = 0;
  stack_pointer = 0;
  link_register = 0;
  fpscr = 0;
  vfp_registers = replicate 32 0;
  registers = replicate 13 0;
  program_counter = 0;
}

unfoldable pub new_target : DebugId → DebugLogic → Option V5Target
unfolding setup
new_target id d = do
  m ← setup id d
  some (record {
    exception_ctx = default_context;
    monitor_status = resuming_program;
    stop_reason = other;
    breaks_paused = false;
    breaks = replicate 16 none;
    hw_manager = m;
    original_hw_lock_state = false;
    single_step_request = none;
    interrupt_pending = false;
    stop_motors_on_break = false;
  })

-- On a processor with at most 16 breakpoints and watchpoints, whatever its debug registers hold, a
-- new target is made without a panic. It is ready for single steps and interrupts, its registers are
-- locked, and its software breakpoints, of which there are none, are apart and held by any memory.
pub new_target-Ready :
    (id : DebugId) (d : DebugLogic) (mem : Memory)
    → id.brps < 16
    → id.wrps < 16
    → (t : V5Target) × (new_target id d ≡ some t)
      × Ready t
      × (locked t.hw_manager ≡ true)
      × Apart t.breaks
      × Held t.breaks mem
unfolding new_target
new_target-Ready id d mem b w =
    let (m, e, idle, size, lock) = setup-IsIdle id d b w in
    (
      record {
        exception_ctx = default_context;
        monitor_status = resuming_program;
        stop_reason = other;
        breaks_paused = false;
        breaks = replicate 16 none;
        hw_manager = m;
        original_hw_lock_state = false;
        single_step_request = none;
        interrupt_pending = false;
        stop_motors_on_break = false;
      },
      rw e refl,
      record {
        valid = IsIdle-IsValid m idle (omega (arith, size)) (omega (arith, size, b));
        reserved = (
          λ word bas. IsIdle-armed m idle (step_place word bas),
          omega (arith, size, IsIdle-available m idle),
        );
      },
      lock,
      tt,
      tt,
    )
