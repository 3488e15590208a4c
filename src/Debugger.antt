-- ===== src/Debugger.antt =====
-- The debugger's session with GDB (src/debugger/mod.rs): what a debug event runs through, from entry
-- to exit. The protocol engine, the connection and the SDK are parameters.
pub mod Callbacks
pub mod Stop
pub mod Console
pub mod Poll
pub mod Schedule
pub mod Start
use v5gdb.Base.{
  ℕ, zero, suc, Bool, true, false, not, Option, none, some, List, [], ◌∷◌, ◌>>=◌, ◌==◌,
  if◌then◌else◌,
}
use v5gdb.Exceptions.{DebugEventContext}
use v5gdb.Breakpoint.Software.{SwBreakpoint}
use v5gdb.Sdk.Motors.{stop_all_motors}
use v5gdb.Target.{
  V5Target, World, MonitorStatus, active, exiting, resuming_program, StopReason,
  tracked_software_break,
}
use v5gdb.Target.Breaks.{remove_sw_breakpoint}
use v5gdb.Target.Entry.{enter_breakpoint, leave_breakpoint}
use v5gdb.Target.Report.{breakpoint, ReportedReason, exited, gdb_stop_reason}

-- What GDB's requests act on.
pub record Env : Type 0 where
  pub target : V5Target
  pub world : World

-- `GdbStubStateMachine`; the state of each stage, connection included, is gdbstub's own.
pub data StateMachine (A : Type 0) : Type 0 where
  idle running ctrl_c_interrupt disconnected : A → StateMachine A

-- What the debugger calls that is not its own: gdbstub with its connection, `vexTasksRun` and the
-- scheduler's current thread. `none` is an error, or a panic in a callback.
pub record Outside : Type 1 where
  pub Inner : Type 0
  pub run_state_machine : Inner → Env → Option (StateMachine Inner × Env)
  pub read : Inner → Option ℕ × Inner
  pub incoming_data : Inner → ℕ → Env → Option (StateMachine Inner × Env)
  pub report_stop : Inner → ReportedReason → Env → Option (StateMachine Inner × Env)
  pub interrupt_handled : Inner → Env → Option (StateMachine Inner × Env)
  pub return_to_idle : Inner → StateMachine Inner
  pub try_read : Inner → Option ℕ × Inner
  pub tasks_run : World → World
  pub current_thread : World → ℕ

-- `SessionStage`
pub data SessionStage (A : Type 0) : Type 0 where
  uninitialized : A → SessionStage A
  active_stage : StateMachine A → SessionStage A
  transitioning : SessionStage A

pub data InternalBreakpoint : Type 0 where
  system_exit_request : InternalBreakpoint

-- `DebugSession`
pub record DebugSession (A : Type 0) : Type 0 where
  pub target : V5Target
  pub internal_breaks : Option (List (InternalBreakpoint × ℕ))
  pub stage : SessionStage A

pub data StopAction : Type 0 where
  resume enter_monitor : StopAction

-- The first internal breakpoint at the address.
unfoldable pub find_internal : ℕ → List (InternalBreakpoint × ℕ) → Option (InternalBreakpoint × ℕ)
find_internal pc [] = none
find_internal pc ((id, addr) ∷ r) = if addr == pc then some (id, addr) else find_internal pc r

abbrev pub flatten {ℓ} : {A : Type ℓ} → Option (List A) → List A
flatten none = []
flatten (some l) = l

module _ {A : Type 0} where
  -- `has_client`, on the stage
  unfoldable pub has_client : SessionStage A → Bool
  has_client (active_stage (disconnected g)) = false
  has_client (active_stage _) = true
  has_client _ = false

  -- The handler of `SystemExitRequest`.
  unfoldable pub exit_requested : DebugSession A → World → ℕ → StopAction × DebugSession A × World
  unfolding has_client
  exit_requested s w addr =
      let (_, t, m) = remove_sw_breakpoint addr true s.target w.machine in
      if has_client s.stage
      then (
        enter_monitor,
        record s { target = record t { monitor_status = exiting } },
        record w { machine = m },
      )
      else (resume, record s { target = t }, record w { machine = m })

  -- `handle_internal_breakpoint`; the assertion that breakpoints are ignored is checked.
  unfoldable pub handle_internal_breakpoint :
      DebugSession A → World → Option (StopAction × DebugSession A × World)
  unfolding find_internal exit_requested
  handle_internal_breakpoint s w =
      if s.target.breaks_paused
      then some (
          handled
            (find_internal s.target.exception_ctx.program_counter (flatten s.internal_breaks)))
      else none
    where
      handled : Option (InternalBreakpoint × ℕ) → StopAction × DebugSession A × World
      handled none = (resume, s, w)
      handled (some (system_exit_request, addr)) = exit_requested s w addr

  -- `handle_stop`; `none` is a panic.
  unfoldable pub handle_stop :
      DebugSession A → World → StopReason → Option (StopAction × DebugSession A × World)
  unfolding handle_internal_breakpoint breakpoint
  handle_stop s w (tracked_software_break id) = do
    slot ← breakpoint id s.target
    b ← slot
    (action, s', w') ←
        if b.reason.internal then handle_internal_breakpoint s w else some (resume, s, w)
    some (if b.reason.user then enter_monitor else action, s', w')
  handle_stop s w _ = some (enter_monitor, s, w)
