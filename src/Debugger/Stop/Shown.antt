-- ===== src/Debugger/Stop/Shown.antt =====
-- Which stops enter the monitor (src/debugger/mod.rs, `handle_stop`).
use v5gdb.Base.{
  ℕ, ◌+◌, ◌≡◌, refl, sym, ◌∙◌, ap, subst, Bool, true, false, ◌&&◌, ◌||◌, Option, none, some,
  some_inj, sym, ◌∙◌, subst, if◌then◌else◌,
}
use v5gdb.Exceptions.{DebugEventContext}
use v5gdb.Breakpoint.Software.{SwBreakpoint}
use v5gdb.Breakpoint.Hardware.{locked}
use v5gdb.Target.{
  V5Target, World, StopReason, hardware_break, tracked_software_break, untracked_software_break,
  interrupt, other,
}
use v5gdb.Target.Entry.{enter_breakpoint}
use v5gdb.Target.Events.{IsEntered, fetchable, held, enter_breakpoint_returns}
use v5gdb.Target.Report.{breakpoint}
use v5gdb.Target.Stepping.{Ready}
use v5gdb.Target.Tracked.{enter_breakpoint_tracked}
use v5gdb.Debugger.{DebugSession, StopAction, resume, enter_monitor, handle_stop}
use v5gdb.Debugger.Callbacks.Paused.{IsPaused}
use v5gdb.Debugger.Console.{is_exiting}
use v5gdb.Debugger.Stop.{env_of, exits, Handled, handle_tracked}

-- The breakpoint of a tracked stop: it is in its slot, at the program counter of the stop.
abbrev pub Found : DebugEventContext → V5Target → StopReason → Option SwBreakpoint → Type 0
Found ctx t (tracked_software_break id) (some b) =
    (breakpoint id t ≡ some (some b))
    × (b.instr_addr ≡ ctx.program_counter)
    × (t.exception_ctx ≡ ctx)
Found ctx t (tracked_software_break id) none = ⊥
Found ctx t _ o = o ≡ none

module _ {A : Type 0} where
  -- The session as it is entered.
  pub IsEntered-IsPaused :
      (s : DebugSession A) (t' : V5Target) (w' : World) (n : ℕ)
      → IsEntered s.target t'
      → w'.suspensions ≡ n
      → IsPaused (locked s.target.hw_manager) n (env_of (record s { target = t' }) w')
  IsEntered-IsPaused s t' w' n e h = record {
    ready = e.ready;
    unlocked = e.unlocked;
    not_pending = e.not_pending;
    paused = e.paused;
    recorded = e.recorded;
    suspended = h;
  }

  pub entered_IsPaused :
      (ctx : DebugEventContext) (s : DebugSession A) (w : World) (base : ℕ)
      → Ready s.target
      → fetchable ctx ≡ true
      → w.suspensions ≡ base + held s.target
      → (t : V5Target) (w' : World) → enter_breakpoint ctx s.target w ≡ some (t, w')
      → IsPaused (locked s.target.hw_manager) (base + 1) (env_of (record s { target = t }) w')
        × (is_exiting t.monitor_status ≡ false)
  entered_IsPaused ctx s w base r f h t w' e =
      let ((t0, w0), e0, entered, suspended) = enter_breakpoint_returns ctx s.target w base r f h in
      subst
        (λ (x : V5Target × World).
          IsPaused (locked s.target.hw_manager) (base + 1) (env_of (record s { target = x.0 }) x.1)
          × (is_exiting x.0.monitor_status ≡ false))
        (some_inj (sym e0 ∙ e))
        (IsEntered-IsPaused s t0 w0 (base + 1) entered suspended, ap is_exiting entered.is_active)

  -- Whether the stop is to be shown: every stop at an untracked place, every stop at a breakpoint of
  -- the user, and the exit of the program if there is a client. Whether the client is to be told of
  -- the exit.
  abbrev pub shown : DebugSession A → StopReason → Option SwBreakpoint → StopAction
  shown s (tracked_software_break id) (some b) =
      if b.reason.user || (b.reason.internal && exits s s.target.exception_ctx.program_counter)
      then enter_monitor
      else resume
  shown s _ _ = enter_monitor

  abbrev pub told_at : DebugSession A → StopReason → Option SwBreakpoint → Bool
  told_at s (tracked_software_break id) (some b) =
      b.reason.internal && exits s s.target.exception_ctx.program_counter
  told_at s _ _ = false

  -- The stop at a reason is handled, in a session entered from `lock` with the scheduler suspended
  -- `n` times.
  abbrev pub Stops : Bool → ℕ → DebugEventContext → DebugSession A → World → StopReason → Type 0
  Stops lock n ctx s w r =
      (o : Option SwBreakpoint) × Found ctx s.target r o
      × (x : StopAction × DebugSession A × World) × (handle_stop s w r ≡ some x)
      × Handled lock n s (told_at s r o) (shown s r o) x.1 x.2 x.0

  -- A stop that is not at a tracked breakpoint.
  shown_untracked :
      (lock : Bool) (n : ℕ) (s : DebugSession A) (w : World)
      → IsPaused lock n (env_of s w)
      → is_exiting s.target.monitor_status ≡ false
      → Handled lock n s false enter_monitor s w enter_monitor
  shown_untracked lock n s w p h = record {
    same_action = refl;
    status = h;
    still_paused = p;
    same_stage = refl;
    same_breaks = refl;
  }

  by_each_reason :
      (lock : Bool) (n : ℕ) (ctx : DebugEventContext) (s0 : DebugSession A) (w0 : World)
      (t : V5Target) (w : World)
      → enter_breakpoint ctx s0.target w0 ≡ some (t, w)
      → IsPaused lock n (env_of (record s0 { target = t }) w)
      → is_exiting t.monitor_status ≡ false
      → (r : StopReason) → t.stop_reason ≡ r
      → Stops lock n ctx (record s0 { target = t }) w r
  unfolding handle_stop
  by_each_reason lock n ctx s0 w0 t w e p h hardware_break q = (
    none,
    refl,
    (enter_monitor, record s0 { target = t }, w),
    refl,
    shown_untracked lock n (record s0 { target = t }) w p h,
  )
  by_each_reason lock n ctx s0 w0 t w e p h untracked_software_break q = (
    none,
    refl,
    (enter_monitor, record s0 { target = t }, w),
    refl,
    shown_untracked lock n (record s0 { target = t }) w p h,
  )
  by_each_reason lock n ctx s0 w0 t w e p h interrupt q = (
    none,
    refl,
    (enter_monitor, record s0 { target = t }, w),
    refl,
    shown_untracked lock n (record s0 { target = t }) w p h,
  )
  by_each_reason lock n ctx s0 w0 t w e p h other q = (
    none,
    refl,
    (enter_monitor, record s0 { target = t }, w),
    refl,
    shown_untracked lock n (record s0 { target = t }) w p h,
  )
  by_each_reason lock n ctx s0 w0 t w e p h (tracked_software_break id) q =
      let (b, at, addr, same) = enter_breakpoint_tracked ctx s0.target t w0 w id e q in
      let (x, f, handled) = handle_tracked lock n (record s0 { target = t }) w p h id b at in
      (some b, (at, addr, same), x, f, handled)

  -- On a ready target and a program counter that can be fetched from, neither `enter_breakpoint` nor
  -- `handle_stop` after it panics. At a stop for a tracked breakpoint, its slot holds a breakpoint at
  -- the program counter. The monitor is entered exactly if the stop is not at a tracked breakpoint,
  -- or the user wants the breakpoint, or it is internal and at the exit of the program while there
  -- is a client; in the last case alone the program counts as exiting. The target stays ready,
  -- unlocked and paused, and the scheduler suspended once more than by the user.
  pub handle_stop_returns :
      (ctx : DebugEventContext) (s : DebugSession A) (w : World) (base : ℕ)
      → Ready s.target
      → fetchable ctx ≡ true
      → w.suspensions ≡ base + held s.target
      → (t : V5Target) × (w' : World) × (enter_breakpoint ctx s.target w ≡ some (t, w'))
        × Stops
            (locked s.target.hw_manager)
            (base + 1)
            ctx
            (record s { target = t })
            w'
            t.stop_reason
  handle_stop_returns ctx s w base r f h =
      let ((t, w'), e, entered, suspended) = enter_breakpoint_returns ctx s.target w base r f h in
      (
        t,
        w',
        e,
        by_each_reason (locked s.target.hw_manager) (base + 1) ctx s w t w' e
            (IsEntered-IsPaused s t w' (base + 1) entered suspended)
            (ap is_exiting entered.is_active) t.stop_reason refl,
      )
