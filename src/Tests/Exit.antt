-- ===== src/Tests/Exit.antt =====
-- The exit of the program at a concrete input.
use v5gdb.Base.{ℕ, ◌≡◌, refl, true, false, none, some, List, [], ◌∷◌, any, count, arith}
use v5gdb.Cpu.Instruction.{arm}
use v5gdb.Cpu.Debug.{reason_of_raw}
use v5gdb.Breakpoint.Hardware.{
  HwBreakpointManager, locked, is_armed_at, breakpoints_available, set_locked, last_break_reason,
}
use v5gdb.Breakpoint.Hardware.Armed.{armed}
use v5gdb.Breakpoint.Hardware.Slots.{IsValid}
use v5gdb.Breakpoint.Software.{SwBreakpoint}
use v5gdb.Target.{V5Target, World, tracked_software_break, active}
use v5gdb.Target.Breaks.{set_breakpoints_ignored, query_sw_breakpoint}
use v5gdb.Target.Entry.{
  enter_breakpoint, finalize_single_step, classify_stop, finalize_interrupt, fixup_manual_bkpt,
}
use v5gdb.Target.Report.{breakpoint, exited}
use v5gdb.Target.Stepping.{Ready}
use v5gdb.Debugger.{Env, StateMachine, active_stage, running, DebugSession, system_exit_request}
use v5gdb.Debugger.Console.{finished, Event, handle_debug_event}
use v5gdb.Debugger.Console.Exit.{handle_debug_event_exits}
use v5gdb.Tests.Debugger.{eager, eager-Serves}
use v5gdb.Tests.Hardware.{context, running as running_target, logic}
use v5gdb.Tests.Sessions.{idle as idle_world}

-- The processor stopped at a `bkpt` instruction.
abbrev at_bkpt : HwBreakpointManager
at_bkpt = record (running_target.hw_manager) {
  mmio = record logic {
    status_control_ext = record (logic.status_control_ext) { method_of_entry = 3 };
  };
}

at_bkpt-IsValid : IsValid at_bkpt
unfolding is_armed_at
at_bkpt-IsValid = record {
  positive = omega arith;
  small = omega arith;
  used_enabled = λ j h. refl;
  beyond = λ j h. refl;
  distinct = λ p i j hi hj ti tj. cc;
}

abbrev exit_break : SwBreakpoint
exit_break = record {
  enabled = true;
  instr_addr = 0x03800000;
  instr_backup = arm 0xe12fff1e;
  reason = record { user = false; internal = true };
}

abbrev at_exit : DebugSession (List ℕ)
at_exit = record {
  target = record running_target { hw_manager = at_bkpt; breaks = some exit_break ∷ none ∷ [] };
  internal_breaks = some ((system_exit_request, 0x03800000) ∷ []);
  stage = active_stage (running []);
}

at_exit-Ready : Ready at_exit.target
unfolding armed is_armed_at breakpoints_available count any
at_exit-Ready = record { valid = at_bkpt-IsValid; reserved = (λ word bas. refl, omega arith) }

abbrev stopped_break : SwBreakpoint
stopped_break = record exit_break { enabled = false }

abbrev stopped_target : V5Target
stopped_target = record (at_exit.target) {
  exception_ctx = context;
  monitor_status = active;
  stop_reason = tracked_software_break 0;
  breaks_paused = true;
  breaks = some stopped_break ∷ none ∷ [];
  hw_manager = set_locked false at_bkpt;
  original_hw_lock_state = locked at_bkpt;
}

abbrev stopped_world : World
stopped_world = record {
  machine = (set_breakpoints_ignored true at_exit.target idle_world.machine).1;
  suspensions = 1;
}

entered : enter_breakpoint context at_exit.target idle_world ≡ some (stopped_target, stopped_world)
unfolding enter_breakpoint set_breakpoints_ignored finalize_single_step classify_stop
    finalize_interrupt fixup_manual_bkpt last_break_reason reason_of_raw set_locked
    query_sw_breakpoint
entered = refl

handle_debug_event_exits_example :
    (e1 : Env) × (m : StateMachine (List ℕ)) × (e2 : Env) × (x : Event (List ℕ))
    × (eager.report_stop [] (exited 0) e1 ≡ some (m, e2))
    × ((handle_debug_event eager 1 [] context at_exit idle_world).1 ≡ finished x)
    × (x.session.stage ≡ active_stage m)
unfolding breakpoint
handle_debug_event_exits_example =
    handle_debug_event_exits eager eager-Serves 0 [] context at_exit idle_world 0 [] stopped_target
      stopped_world 0 stopped_break at_exit-Ready refl refl refl entered refl refl refl refl
