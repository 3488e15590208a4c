-- ===== src/Target.antt =====
-- The state of the debugger target (src/gdb_target/mod.rs, `V5Target`), and what it acts on.
pub mod Breaks
pub mod Entry
pub mod Memory
pub mod Reserve
pub mod Stepping
pub mod Session
pub mod Events
pub mod Leaving
pub mod Start
pub mod Tracked
pub mod Registers
pub mod Report
pub mod Saved
pub mod Threads
pub mod MemoryMap
use v5gdb.Base.{ℕ, Bool, Option, List}
use v5gdb.Arch.{ArmBreakpointKind}
use v5gdb.Exceptions.{DebugEventContext}
use v5gdb.Cpu.Cache.{Machine}
use v5gdb.Breakpoint.Software.{SwBreakpoint}
use v5gdb.Breakpoint.Hardware.{HwBreakpointManager}

pub data StopReason : Type 0 where
  hardware_break : StopReason
  tracked_software_break : ℕ → StopReason
  untracked_software_break interrupt other : StopReason

pub record SingleStepRequest : Type 0 where
  pub target_addr : ℕ
  pub kind : ArmBreakpointKind

pub data MonitorStatus : Type 0 where
  active exiting resuming_program : MonitorStatus

-- The array of 16 slots of software breakpoints.
abbrev pub Slots : Type 0
Slots = List (Option SwBreakpoint)

pub record V5Target : Type 0 where
  pub exception_ctx : DebugEventContext
  pub monitor_status : MonitorStatus
  pub stop_reason : StopReason
  pub breaks_paused : Bool
  pub breaks : Slots
  pub hw_manager : HwBreakpointManager
  pub original_hw_lock_state : Bool
  pub single_step_request : Option SingleStepRequest
  pub interrupt_pending : Bool
  pub stop_motors_on_break : Bool

-- Memory and caches, and how often the scheduler is suspended (`System::suspend_preemption` stacks).
pub record World : Type 0 where
  pub machine : Machine
  pub suspensions : ℕ
