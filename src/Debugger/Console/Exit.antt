-- ===== src/Debugger/Console/Exit.antt =====
-- The program's exit while a client is connected (src/debugger/mod.rs, `SystemExitRequest`).
use v5gdb.Base.{
  ℕ, suc, ◌+◌, ◌≡◌, refl, sym, ◌∙◌, ap, subst, Bool, true, false, ◌||◌, Option, some, List,
  if◌then◌else◌, arith,
}
use v5gdb.Exceptions.{DebugEventContext}
use v5gdb.Breakpoint.Software.{SwBreakpoint}
use v5gdb.Breakpoint.Hardware.{locked}
use v5gdb.Target.{
  V5Target, World, MonitorStatus, active, exiting, resuming_program, tracked_software_break,
}
use v5gdb.Target.Entry.{enter_breakpoint}
use v5gdb.Target.Events.{fetchable, held}
use v5gdb.Target.Report.{breakpoint, exited, gdb_stop_reason}
use v5gdb.Target.Stepping.{Ready}
use v5gdb.Target.Tracked.{enter_breakpoint_tracked}
use v5gdb.Debugger.{
  Env, Outside, StateMachine, running, active_stage, DebugSession, resume, enter_monitor,
  handle_stop, flatten, has_client,
}
use v5gdb.Debugger.Callbacks.Paused.{IsPaused, Callbacks-resuming}
use v5gdb.Debugger.Stop.{env_of, is_internal, exits, handle_tracked, told}
use v5gdb.Debugger.Stop.Shown.{entered_IsPaused}
use v5gdb.Debugger.Console.{
  finished, Event, is_exiting, is_exited, is_resuming, resuming_if, tick_state_machine, round,
  console, put_back, console_at, run_debug_console, leave, leave_console, act, handle_debug_event,
}
use v5gdb.Debugger.Console.Returns.{Serves, console_done, console_next}
use v5gdb.Debugger.Console.Resumption.{event_entered}

exiting_reason :
    (t : V5Target) (tid : ℕ) → is_exiting t.monitor_status ≡ true → gdb_stop_reason t tid ≡ exited 0
unfolding gdb_stop_reason
exiting_reason t tid h = ground arith

exiting_stays : (s : MonitorStatus) → is_exiting s ≡ true → is_resuming s ≡ false
exiting_stays active h = absurd (cc)
exiting_stays exiting h = refl
exiting_stays resuming_program h = absurd (cc)

exits-running :
    (A : Type 0) (s : DebugSession A) (pc : ℕ) (g : A)
    → s.stage ≡ active_stage (running g)
    → is_internal pc (flatten s.internal_breaks) ≡ true
    → exits s pc ≡ true
unfolding has_client
exits-running A s pc g stage h = rw stage h

always_shown :
    (user told : Bool)
    → told ≡ true
    → (if user || told then enter_monitor else resume) ≡ enter_monitor
always_shown true told h = refl
always_shown false told h = rw h refl

-- The round that tells the client.
last_round :
    (o : Outside) (v : Serves o) (g : o.Inner) (e : Env)
    → is_exiting e.target.monitor_status ≡ true
    → (e1 : Env) × (m : StateMachine o.Inner) × (e2 : Env) × (o.report_stop g (exited 0) e1
        ≡ some (m, e2))
      × (round o (running g) e ≡ some (m, e2))
      × (is_resuming e2.target.monitor_status ≡ true)
unfolding round tick_state_machine
last_round o v g e h =
    let e1 : Env = record {
      target = record (e.target) { monitor_status = resuming_program };
      world = o.tasks_run e.world;
    } in
    let ((m, e2), f, cs) = v.reports g (exited 0) e1 in
    (
      e1,
      m,
      e2,
      f,
      ap
            (λ r. o.report_stop g r (
              resuming_if (is_exited r)
                (record { target = e.target; world = o.tasks_run e.world })))
            (exiting_reason e.target (o.current_thread (o.tasks_run e.world)) h)
          ∙ f,
      Callbacks-resuming cs refl,
    )

-- The console of an exiting program whose client runs: one round.
console_exits :
    (o : Outside) (v : Serves o) (rounds : ℕ) (s : DebugSession o.Inner) (w : World) (g : o.Inner)
    (lock : Bool) (n : ℕ)
    → IsPaused lock n (env_of s w)
    → is_exiting s.target.monitor_status ≡ true
    → s.stage ≡ active_stage (running g)
    → (e1 : Env) × (m : StateMachine o.Inner) × (e2 : Env) × (o.report_stop g (exited 0) e1
        ≡ some (m, e2))
      × (run_debug_console o (suc rounds) s w
          ≡ finished (record s { target = e2.target; stage = active_stage m }, e2.world))
unfolding run_debug_console console_at put_back
console_exits o v rounds s w g lock n p h stage =
    let (e1, m, e2, f, q, r) = last_round o v g (env_of s w) h in
    let eq : console o (suc rounds) (running g) (env_of s w) ≡ finished (m, e2) =
      console_next o rounds (running g) (env_of s w) (m, e2)
        (exiting_stays s.target.monitor_status h) q
      ∙ console_done o rounds m e2 r in
    (e1, m, e2, f, ap (console_at o (suc rounds) s w) stage ∙ ap (put_back o s) eq)

-- When the program reaches its exit, a tracked breakpoint that is internal, while a client is
-- connected and waits for it to stop, then one round of the console is enough: gdbstub is told that
-- the program exited with code 0, and the event ends, so that the program can go on to its exit. This
-- supposes a ready target, a program counter that can be fetched from, and that gdbstub acts on the
-- target through its interfaces alone and without an error.
pub handle_debug_event_exits :
    (o : Outside) (v : Serves o) (rounds : ℕ) (ports : List (Option ℕ)) (ctx : DebugEventContext)
    (s : DebugSession o.Inner) (w : World) (base : ℕ) (g : o.Inner) (t : V5Target) (w' : World)
    (id : ℕ) (b : SwBreakpoint)
    → Ready s.target
    → fetchable ctx ≡ true
    → w.suspensions ≡ base + held s.target
    → s.stage ≡ active_stage (running g)
    → enter_breakpoint ctx s.target w ≡ some (t, w')
    → t.stop_reason ≡ tracked_software_break id
    → breakpoint id t ≡ some (some b)
    → b.reason.internal ≡ true
    → is_internal ctx.program_counter (flatten s.internal_breaks) ≡ true
    → (e1 : Env) × (m : StateMachine o.Inner) × (e2 : Env) × (x : Event o.Inner) × (o.report_stop g
          (exited 0)
          e1
        ≡ some (m, e2))
      × ((handle_debug_event o (suc rounds) ports ctx s w).1 ≡ finished x)
      × (x.session.stage ≡ active_stage m)
unfolding act leave leave_console
handle_debug_event_exits o v rounds ports ctx s w base g t w' id b r fe h stage e reason at int
      here =
    let s1 : DebugSession o.Inner = record s { target = t } in
    let lock = locked s.target.hw_manager in
    let (p, quiet) = entered_IsPaused ctx s w base r fe h t w' e in
    let (_, _, _, same) = enter_breakpoint_tracked ctx s.target t w w' id e reason in
    let ((action, s2, w2), f, handled) = handle_tracked lock (base + 1) s1 w' p quiet id b at in
    let told_true : told lock (base + 1) s1 w' p quiet b ≡ true = rw int (
      exits-running o.Inner s1 t.exception_ctx.program_counter g stage (
        subst (λ c. is_internal c.program_counter (flatten s.internal_breaks) ≡ true) (sym same)
          here)) in
    let acts : action ≡ enter_monitor =
      handled.same_action ∙ always_shown b.reason.user _ told_true in
    let (e1, m, e2, g', q) =
      console_exits o v rounds s2 w2 g lock (base + 1) handled.still_paused
        (handled.status ∙ told_true) (handled.same_stage ∙ stage) in
    (
      e1,
      m,
      e2,
      leave o (record s2 { target = e2.target; stage = active_stage m }) e2.world,
      g',
      ap (λ y. y.1) (event_entered o (suc rounds) ports ctx s w t w' e)
          ∙ ap (act o (suc rounds)) (ap (handle_stop s1 w') reason ∙ f)
          ∙ ap (λ a. act o (suc rounds) (some (a, s2, w2))) acts
          ∙ ap (leave_console o) q,
      refl,
    )
