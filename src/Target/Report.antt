-- ===== src/Target/Report.antt =====
-- What the target says about a stop (src/gdb_target/mod.rs, `breakpoint` and `gdb_stop_reason`).
use v5gdb.Base.{ℕ, Option, get_elem?}
use v5gdb.Breakpoint.Software.{SwBreakpoint}
use v5gdb.Target.{
  V5Target, active, exiting, resuming_program, StopReason, hardware_break, tracked_software_break,
  untracked_software_break, interrupt, other,
}

-- `V5Target::breakpoint`: the content of a slot; `none` is the panic of an index out of range.
unfoldable pub breakpoint : ℕ → V5Target → Option (Option SwBreakpoint)
breakpoint id t = get_elem? t.breaks id

-- The signals that are reported.
pub data Signal : Type 0 where
  sigtrap sigint : Signal

-- `MultiThreadStopReason`, as far as it is used; threads are numbers.
pub data ReportedReason : Type 0 where
  exited hw_break sw_break : ℕ → ReportedReason
  signal_with_thread : Signal → ℕ → ReportedReason

reason_of : StopReason → ℕ → ReportedReason
reason_of hardware_break tid = hw_break tid
reason_of (tracked_software_break id) tid = sw_break tid
reason_of untracked_software_break tid = signal_with_thread sigtrap tid
reason_of other tid = signal_with_thread sigtrap tid
reason_of interrupt tid = signal_with_thread sigint tid

-- `gdb_stop_reason`, given the current thread
unfoldable pub gdb_stop_reason : V5Target → ℕ → ReportedReason
unfolding reason_of
gdb_stop_reason t tid = elim t.monitor_status [
  | exiting ↦ exited 0
  | active ↦ reason_of t.stop_reason tid
  | resuming_program ↦ reason_of t.stop_reason tid
]
