-- ===== src/Tests/Hardware.antt =====
-- Hardware breakpoints on a processor with six slots.
use v5gdb.Base.{◌+◌, ◌≡◌, refl, true, false, not, ◌&&◌, none, some, [], ◌∷◌, any, count, arith}
use v5gdb.Arch.{kind_thumb16}
use v5gdb.Exceptions.{DebugEventContext}
use v5gdb.Cpu.Debug.{DebugLogic, breakpoint_disabled, watchpoint_disabled}
use v5gdb.Breakpoint.{ok}
use v5gdb.Breakpoint.Hardware.{
  HwBreakpointManager, match, locked, split_addr, is_armed_at, is_free_at, add_breakpoint_at,
  remove_breakpoint_at, breakpoints_available,
}
use v5gdb.Breakpoint.Hardware.Armed.{
  Place, same_place, place, armed, Inserted, add_breakpoint_at_refines,
  remove_breakpoint_at_refines, armed_slot,
}
use v5gdb.Breakpoint.Hardware.Slots.{IsValid}
use v5gdb.Breakpoint.Hardware.Reserve.{add_breakpoint_at_accounts, remove_breakpoint_at_accounts}
use v5gdb.Target.{V5Target, resuming_program, other}
use v5gdb.Target.Entry.{request_interrupt}
use v5gdb.Target.Stepping.{Ready, request_interrupt_returns}

abbrev pub logic : DebugLogic
logic = record {
  status_control_ext = record {
    secure_pl1_invasive_debug_disabled = false;
    monitor_debug_mode = true;
    halting_debug_mode = false;
    method_of_entry = 1;
  };
  breakpoint_value = λ _. 0xf0f0f0f0;
  breakpoint_ctrl = λ _. breakpoint_disabled;
  watchpoint_value = λ _. 0xf0f0f0f0;
  watchpoint_ctrl = λ _. watchpoint_disabled;
  software_lock_status = false;
}

abbrev six_slots : HwBreakpointManager
six_slots = record {
  capabilities = record { num_breakpoints = 6; num_watchpoints = 4 };
  mmio = logic;
  used_breakpoints = λ _. false;
}

six_slots-IsValid : IsValid six_slots
unfolding is_armed_at
six_slots-IsValid = record {
  positive = omega arith;
  small = omega arith;
  used_enabled = λ j h. refl;
  beyond = λ j h. refl;
  distinct = λ p i j hi hj ti tj. cc;
}

add_breakpoint_at_refines_example :
    Inserted six_slots
      (place 0x03800000 3 match)
      (add_breakpoint_at six_slots 0x03800000 match kind_thumb16)
unfolding split_addr
add_breakpoint_at_refines_example =
    add_breakpoint_at_refines six_slots 0x03800000 match kind_thumb16 0x03800000 3 refl
      (omega arith) refl

remove_breakpoint_at_refines_example :
    (m' : HwBreakpointManager) × (remove_breakpoint_at
        (armed_slot six_slots (place 0x03800000 3 match) 0)
        0x03800000
        match
        kind_thumb16
      ≡ some (
        armed (armed_slot six_slots (place 0x03800000 3 match) 0) (place 0x03800000 3 match),
        m',
      ))
    × ((q : Place)
        → armed m' q ≡ (
            not (same_place (place 0x03800000 3 match) q)
            && armed (armed_slot six_slots (place 0x03800000 3 match) 0) q))
unfolding split_addr
remove_breakpoint_at_refines_example =
    remove_breakpoint_at_refines (armed_slot six_slots (place 0x03800000 3 match) 0) 0x03800000
      match kind_thumb16 0x03800000 3 refl (omega arith) refl

-- The first slot is given to the place.
add_runs :
    add_breakpoint_at six_slots 0x03800000 match kind_thumb16
    ≡ some (ok tt, armed_slot six_slots (place 0x03800000 3 match) 0)
unfolding add_breakpoint_at is_armed_at is_free_at
add_runs = refl

add_breakpoint_at_accounts_example :
    IsValid (armed_slot six_slots (place 0x03800000 3 match) 0)
    × (breakpoints_available six_slots
        ≡ breakpoints_available (armed_slot six_slots (place 0x03800000 3 match) 0) + 1)
add_breakpoint_at_accounts_example =
    add_breakpoint_at_accounts six_slots 0x03800000 match kind_thumb16 six_slots-IsValid add_runs

remove_breakpoint_at_accounts_example :
    IsValid six_slots × (breakpoints_available six_slots ≡ breakpoints_available six_slots + 0)
unfolding remove_breakpoint_at
remove_breakpoint_at_accounts_example =
    remove_breakpoint_at_accounts six_slots 0x03800001 match kind_thumb16 six_slots-IsValid refl

abbrev pub context : DebugEventContext
context = record {
  cpsr = 0x10;
  stack_pointer = 0;
  link_register = 0;
  fpscr = 0;
  vfp_registers = [];
  registers = [];
  program_counter = 0x03800000;
}

-- A target that runs, with no breakpoint set.
abbrev pub running : V5Target
running = record {
  exception_ctx = context;
  monitor_status = resuming_program;
  stop_reason = other;
  breaks_paused = false;
  breaks = none ∷ none ∷ [];
  hw_manager = six_slots;
  original_hw_lock_state = true;
  single_step_request = none;
  interrupt_pending = false;
  stop_motors_on_break = false;
}

pub running-Ready : Ready running
unfolding armed is_armed_at breakpoints_available count any
running-Ready = record { valid = six_slots-IsValid; reserved = (λ word bas. refl, omega arith) }

request_interrupt_returns_example :
    (t' : V5Target) × (request_interrupt running ≡ some t')
    × Ready t'
    × (t'.interrupt_pending ≡ true)
    × (locked t'.hw_manager ≡ locked running.hw_manager)
request_interrupt_returns_example = request_interrupt_returns running running-Ready
