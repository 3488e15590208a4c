-- ===== src/Debugger/Console/Resumption.antt =====
-- A debug event as a whole (src/debugger/mod.rs, `handle_debug_event`).
use v5gdb.Base.{
  ℕ, ◌+◌, ◌-◌, ◌≡◌, refl, sym, ◌∙◌, ap, subst, Bool, true, false, Option, some, List, [],
  if◌then◌else◌, arith,
}
use v5gdb.Exceptions.{DebugEventContext}
use v5gdb.Breakpoint.Hardware.{locked}
use v5gdb.Sdk.Motors.{stop_all_motors}
use v5gdb.Target.{V5Target, World}
use v5gdb.Target.Entry.{enter_breakpoint}
use v5gdb.Target.Events.{fetchable, held, leave_breakpoint-held}
use v5gdb.Target.Stepping.{Ready}
use v5gdb.Target.Tracked.{enter_breakpoint_motors}
use v5gdb.Debugger.{
  Env, Outside, StateMachine, SessionStage, uninitialized, active_stage, transitioning,
  DebugSession, StopAction, resume, enter_monitor, handle_stop,
}
use v5gdb.Debugger.Callbacks.Paused.{IsPaused, Callbacks-IsPaused}
use v5gdb.Debugger.Stop.{env_of}
use v5gdb.Debugger.Stop.Shown.{handle_stop_returns}
use v5gdb.Debugger.Console.{
  Run, panicked, waiting, finished, Event, console, put_back, console_at, run_debug_console, leave,
  leave_console, act, handle_debug_event,
}
use v5gdb.Debugger.Console.Returns.{Serves, StandsAt, console_stands}

-- The session is not inside a call of its own console.
abbrev pub IsUp : {A : Type 0} → SessionStage A → Type 0
IsUp transitioning = ⊥
IsUp _ = Unit {0}

module _ {A : Type 0} where
  -- The program after an event, once the scheduler is resumed if the event asks for it: the target
  -- ready, its lock as before, breakpoints no longer marked as ignored, the scheduler suspended
  -- `base` times by the user.
  pub record Resumed (lock : Bool) (base : ℕ) (x : Event A) : Type 0 where
    pub ready : Ready x.session.target
    pub same_lock : locked x.session.target.hw_manager ≡ lock
    pub live : x.session.target.breaks_paused ≡ false
    pub suspended :
        x.world.suspensions - (if x.unpause then 1 else 0) ≡ base + held x.session.target
    pub up : IsUp x.session.stage

  -- How an event stands: never panicked; paused while the console waits, and resumed at the end.
  abbrev pub EventStands : Bool → ℕ → Run (DebugSession A × World) (Event A) → Type 0
  EventStands lock base panicked = ⊥
  EventStands lock base (waiting (s, w)) = IsPaused lock (base + 1) (env_of s w)
  EventStands lock base (finished x) = Resumed lock base x

  -- The same of a console before the session is left.
  abbrev ConsoleStands : Bool → ℕ → Run (DebugSession A × World) (DebugSession A × World) → Type 0
  ConsoleStands lock n panicked = ⊥
  ConsoleStands lock n (waiting (s, w)) = IsPaused lock n (env_of s w)
  ConsoleStands lock n (finished (s, w)) = IsPaused lock n (env_of s w) × IsUp s.stage

module _ (o : Outside) (lock : Bool) where
  pub leave_stands :
      (base : ℕ) (s : DebugSession o.Inner) (w : World)
      → IsPaused lock (base + 1) (env_of s w)
      → IsUp s.stage
      → Resumed lock base (leave o s w)
  unfolding leave
  leave_stands base s w p up =
      let (sus, lock', _, live, ready) =
        leave_breakpoint-held s.target w base p.ready p.suspended in
      record {
        ready = ready;
        same_lock = lock' ∙ p.recorded;
        live = live;
        suspended = sus;
        up = up;
      }

  leave_console_stands :
      (base : ℕ) (r : Run (DebugSession o.Inner × World) (DebugSession o.Inner × World))
      → ConsoleStands lock (base + 1) r
      → EventStands lock base (leave_console o r)
  unfolding leave_console
  leave_console_stands base panicked h = h
  leave_console_stands base (waiting x) h = h
  leave_console_stands base (finished (s, w)) h = leave_stands base s w h.0 h.1

  put_back_stands :
      (n : ℕ) (s : DebugSession o.Inner)
      (r : Run (StateMachine o.Inner × Env) (StateMachine o.Inner × Env))
      → StandsAt lock n r
      → ConsoleStands lock n (put_back o s r)
  unfolding put_back
  put_back_stands n s panicked h = h
  put_back_stands n s (waiting (m, e)) h = h
  put_back_stands n s (finished (m, e)) h = (h.0, tt)

  started :
      (rounds : ℕ) (s : DebugSession o.Inner) (w : World) (g : o.Inner) (m : StateMachine o.Inner)
      (e : Env)
      → o.run_state_machine g (env_of s w) ≡ some (m, e)
      → console_at o rounds s w (uninitialized g) ≡ put_back o s (console o rounds m e)
  unfolding console_at
  started rounds s w g m e f = ground (arith, f)

  console_at_stands :
      (v : Serves o) (rounds n : ℕ) (s : DebugSession o.Inner) (w : World)
      → IsPaused lock n (env_of s w)
      → (g : SessionStage o.Inner) → IsUp g
      → ConsoleStands lock n (console_at o rounds s w g)
  unfolding console_at
  console_at_stands v rounds n s w p (active_stage m) up =
      put_back_stands n s (console o rounds m (env_of s w))
        (console_stands lock n o v rounds m (env_of s w) p)
  console_at_stands v rounds n s w p (uninitialized g) up =
      let ((m, e), f, cs) = v.starts g (env_of s w) in
      subst (ConsoleStands lock n) (sym (started rounds s w g m e f)) (
        put_back_stands n s (console o rounds m e)
          (console_stands lock n o v rounds m e (Callbacks-IsPaused lock n cs p)))
  console_at_stands v rounds n s w p transitioning up = elim up [ ]

  act_stands :
      (v : Serves o) (rounds base : ℕ) (x : StopAction × DebugSession o.Inner × World)
      → IsPaused lock (base + 1) (env_of x.1 x.2)
      → IsUp x.1.stage
      → EventStands lock base (act o rounds (some x))
  unfolding act run_debug_console
  act_stands v rounds base (resume, s, w) p up = leave_stands base s w p up
  act_stands v rounds base (enter_monitor, s, w) p up =
      leave_console_stands base (console_at o rounds s w s.stage)
        (console_at_stands v rounds (base + 1) s w p s.stage up)

pub event_entered :
    (o : Outside) (rounds : ℕ) (ports : List (Option ℕ)) (ctx : DebugEventContext)
    (s : DebugSession o.Inner) (w : World) (t : V5Target) (w' : World)
    → enter_breakpoint ctx s.target w ≡ some (t, w')
    → handle_debug_event o rounds ports ctx s w ≡ (
      if t.stop_motors_on_break then stop_all_motors ports else [],
      act o rounds (handle_stop (record s { target = t }) w' t.stop_reason),
    )
unfolding handle_debug_event
event_entered o rounds ports ctx s w t w' e = rw (e, handle_debug_event) refl

-- Let every call of gdbstub's return without an error and without a panic of the debugger's
-- callbacks, act on the target by these and by running the system's tasks alone, and let the tasks
-- leave the scheduler's suspensions as they are. Then a debug event on a ready target, at a program
-- counter that can be fetched from and outside the session's own console, does not panic in what
-- the debugger itself does on entry, in each round and on exit, however many rounds the console runs.
-- While the console waits, the target is ready, unlocked and marked as having its breakpoints
-- ignored, and the scheduler suspended once more than by the user. When the event ends and the
-- scheduler is resumed as it asks, the target is ready, the lock as before the event, breakpoints no
-- longer marked as ignored, and the scheduler suspended as a running program has it. If motors are
-- to be stopped, the devices at all ports are, and otherwise none.
pub handle_debug_event_stands :
    (o : Outside) (v : Serves o) (rounds : ℕ) (ports : List (Option ℕ)) (ctx : DebugEventContext)
    (s : DebugSession o.Inner) (w : World) (base : ℕ)
    → Ready s.target
    → IsUp s.stage
    → fetchable ctx ≡ true
    → w.suspensions ≡ base + held s.target
    → let (stops, r) = handle_debug_event o rounds ports ctx s w in
      EventStands (locked s.target.hw_manager) base r
      × (stops ≡ (if s.target.stop_motors_on_break then stop_all_motors ports else []))
handle_debug_event_stands o v rounds ports ctx s w base r up f h =
    let (t, w', e, stop) = handle_stop_returns ctx s w base r f h in
    let (found, is_found, x, stopped, handled) = stop in
    let eq : handle_debug_event o rounds ports ctx s w
        ≡ (if t.stop_motors_on_break then stop_all_motors ports else [], act o rounds (some x)) =
      event_entered o rounds ports ctx s w t w' e ∙ rw stopped refl in
    (
      subst (EventStands (locked s.target.hw_manager) base) (sym (ap (λ q. q.1) eq)) (
          act_stands o (locked s.target.hw_manager) v rounds base x handled.still_paused
            (subst IsUp (sym handled.same_stage) up)),
      ap (λ q. q.0) eq
          ∙ ap (λ b. if b then stop_all_motors ports else [])
              (enter_breakpoint_motors ctx s.target t w w' e),
    )
