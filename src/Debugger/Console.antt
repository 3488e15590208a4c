-- ===== src/Debugger/Console.antt =====
-- The debug console and the debug event around it (src/debugger/mod.rs).
pub mod Returns
pub mod Resumption
pub mod Exit
use v5gdb.Base.{ℕ, zero, suc, Bool, true, false, Option, none, some, List, [], ◌>>=◌, if◌then◌else◌}
use v5gdb.Exceptions.{DebugEventContext}
use v5gdb.Sdk.Motors.{stop_all_motors}
use v5gdb.Target.{V5Target, World, MonitorStatus, active, exiting, resuming_program}
use v5gdb.Target.Entry.{enter_breakpoint, leave_breakpoint}
use v5gdb.Target.Report.{ReportedReason, exited, gdb_stop_reason}
use v5gdb.Debugger.{
  Env, Outside, StateMachine, idle, running, ctrl_c_interrupt, disconnected, SessionStage,
  uninitialized, active_stage, transitioning, DebugSession, StopAction, resume, enter_monitor,
  handle_stop,
}

-- How a program that may wait for ever stands after a number of rounds.
pub data Run (A B : Type 0) : Type 0 where
  panicked : Run A B
  waiting : A → Run A B
  finished : B → Run A B

abbrev pub is_exiting : MonitorStatus → Bool
is_exiting exiting = true
is_exiting _ = false

abbrev pub is_resuming : MonitorStatus → Bool
is_resuming resuming_program = true
is_resuming _ = false

abbrev pub is_exited : ReportedReason → Bool
is_exited (exited _) = true
is_exited _ = false

-- The program is to go on, if the test says so.
abbrev pub resuming_if : Bool → Env → Env
resuming_if b e =
    if b then record e { target = record (e.target) { monitor_status = resuming_program } } else e

-- What a debug event gives back: the context to go on with, whether to resume the scheduler, and
-- the state.
pub record Event (A : Type 0) : Type 0 where
  pub context : DebugEventContext
  pub unpause : Bool
  pub session : DebugSession A
  pub world : World

module _ (o : Outside) where
  open o use {
    Inner, run_state_machine, read, incoming_data, report_stop, interrupt_handled, return_to_idle,
    tasks_run, current_thread,
  }

  -- A byte that was read is handed on; a failed read changes nothing.
  unfoldable pub on_read : Option ℕ × Inner → Env → Option (StateMachine Inner × Env)
  on_read (some byte, g) e = incoming_data g byte e
  on_read (none, g) e = some (idle g, e)

  -- `tick_state_machine`
  unfoldable pub tick_state_machine : StateMachine Inner → Env → Option (StateMachine Inner × Env)
  unfolding on_read
  tick_state_machine (idle g) e = on_read (read g) e
  tick_state_machine (running g) e =
      let reason = gdb_stop_reason e.target (current_thread e.world) in
      report_stop g reason (resuming_if (is_exited reason) e)
  tick_state_machine (ctrl_c_interrupt g) e = interrupt_handled g e
  tick_state_machine (disconnected g) e =
      some (return_to_idle g, resuming_if (is_exiting e.target.monitor_status) e)

  -- One round of the console's loop.
  unfoldable pub round : StateMachine Inner → Env → Option (StateMachine Inner × Env)
  unfolding tick_state_machine
  round m e = tick_state_machine m (record e { world = tasks_run e.world })

  -- The loop of `run_debug_console`, for as many rounds.
  unfoldable pub console :
      ℕ → StateMachine Inner → Env → Run (StateMachine Inner × Env) (StateMachine Inner × Env)
  console zero m e = if is_resuming e.target.monitor_status then finished (m, e) else waiting (m, e)
  console (suc rounds) m e = elim (is_resuming e.target.monitor_status) [
    | true ↦ finished (m, e)
    | false ↦ elim (round m e) [ none ↦ panicked | some (m', e') ↦ console rounds m' e' ]
  ]

  -- The console with its state machine put back into the session.
  unfoldable pub put_back :
      DebugSession Inner
      → Run (StateMachine Inner × Env) (StateMachine Inner × Env)
      → Run (DebugSession Inner × World) (DebugSession Inner × World)
  put_back s panicked = panicked
  put_back s (waiting (m, e)) =
      waiting (record s { target = e.target; stage = active_stage m }, e.world)
  put_back s (finished (m, e)) =
      finished (record s { target = e.target; stage = active_stage m }, e.world)

  -- The console of a session in a stage.
  unfoldable pub console_at :
      ℕ
      → DebugSession Inner
      → World
      → SessionStage Inner
      → Run (DebugSession Inner × World) (DebugSession Inner × World)
  unfolding console put_back
  console_at rounds s w (active_stage m) =
      put_back s (console rounds m (record { target = s.target; world = w }))
  console_at rounds s w (uninitialized g) =
      elim (run_state_machine g (record { target = s.target; world = w })) [
        | none ↦ panicked
        | some (m, e) ↦ put_back s (console rounds m e)
      ]
  console_at rounds s w transitioning = panicked

  -- `run_debug_console`
  unfoldable pub run_debug_console :
      ℕ → DebugSession Inner → World → Run (DebugSession Inner × World) (DebugSession Inner × World)
  unfolding console_at
  run_debug_console rounds s w = console_at rounds s w s.stage

  -- The end of `handle_debug_event`
  unfoldable pub leave : DebugSession Inner → World → Event Inner
  leave s w =
      let (ctx, unpause, t, w') = leave_breakpoint s.target w in
      record { context = ctx; unpause = unpause; session = record s { target = t }; world = w' }

  unfoldable pub leave_console :
      Run (DebugSession Inner × World) (DebugSession Inner × World)
      → Run (DebugSession Inner × World) (Event Inner)
  unfolding leave
  leave_console panicked = panicked
  leave_console (waiting x) = waiting x
  leave_console (finished (s, w)) = finished (leave s w)

  -- What the stop calls for.
  unfoldable pub act :
      ℕ
      → Option (StopAction × DebugSession Inner × World)
      → Run (DebugSession Inner × World) (Event Inner)
  unfolding run_debug_console leave_console
  act rounds none = panicked
  act rounds (some (resume, s, w)) = finished (leave s w)
  act rounds (some (enter_monitor, s, w)) = leave_console (run_debug_console rounds s w)

  -- `handle_debug_event`, with the console run for as many rounds; the first result is the motors
  -- that are stopped, given the devices at the ports.
  unfoldable pub handle_debug_event :
      ℕ
      → List (Option ℕ)
      → DebugEventContext
      → DebugSession Inner
      → World
      → List (ℕ × ℕ) × Run (DebugSession Inner × World) (Event Inner)
  unfolding act handle_stop
  handle_debug_event rounds ports ctx s w = elim (enter_breakpoint ctx s.target w) [
    | none ↦ ([], panicked)
    | some (t, w') ↦ (
      if t.stop_motors_on_break then stop_all_motors ports else [],
      act rounds (handle_stop (record s { target = t }) w' t.stop_reason),
    )
  ]
