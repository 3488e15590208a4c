-- ===== src/Debugger/Schedule.antt =====
-- The program, its debug events and the polls of the debugger in any order (src/debugger/mod.rs).
-- A poll inside an event finds the session locked and does nothing, so events and polls do not mix.
use v5gdb.Base.{
  ℕ, ◌+◌, ◌-◌, ◌≡◌, refl, sym, ◌∙◌, ap, subst, Bool, true, false, Option, some, some_inj,
  >>=-eq-some, List, if◌then◌else◌,
}
use v5gdb.Exceptions.{DebugEventContext}
use v5gdb.Cpu.Cache.{Machine}
use v5gdb.Breakpoint.Hardware.{locked}
use v5gdb.Target.{V5Target, World}
use v5gdb.Target.Events.{fetchable, held}
use v5gdb.Target.Stepping.{Ready}
use v5gdb.Debugger.{
  Outside, idle, running, ctrl_c_interrupt, disconnected, SessionStage, uninitialized, active_stage,
  transitioning, DebugSession,
}
use v5gdb.Debugger.Console.{finished, Event, handle_debug_event}
use v5gdb.Debugger.Console.Returns.{Serves}
use v5gdb.Debugger.Console.Resumption.{IsUp, Resumed, EventStands, handle_debug_event_stands}
use v5gdb.Debugger.Poll.{interrupt_found, interrupt_if, poll_at, poll}
use v5gdb.Debugger.Poll.Interrupts.{interrupt_if_returns}

-- The scheduler after an event: it is resumed once if the event asks for it.
abbrev pub unpaused : Bool → World → World
unpaused resume w = record w { suspensions = w.suspensions - (if resume then 1 else 0) }

module _ (o : Outside) where
  -- The session and the world while the program runs.
  pub record System : Type 0 where
    pub session : DebugSession o.Inner
    pub world : World

  -- A change of the program, a poll, or a debug event that the console has dealt with. The program
  -- may change memory and suspend the scheduler as often as it likes; it resumes what it suspended
  -- itself, and never the suspension that the debugger holds during a single step.
  pub data Step (y : System) : System → Type 0 where
    run_program :
        (m : Machine) (own : ℕ)
        → Step y (record y {
          world = record (y.world) { machine = m; suspensions = own + held y.session.target };
        })
    irq_poll :
        (rounds : ℕ) (s : DebugSession o.Inner)
        → poll o rounds false y.session ≡ some s
        → Step y (record y { session = s })
    debug_event :
        (rounds : ℕ) (ports : List (Option ℕ)) (ctx : DebugEventContext) (x : Event o.Inner)
        → fetchable ctx ≡ true
        → (handle_debug_event o rounds ports ctx y.session y.world).1 ≡ finished x
        → Step y (record { session = x.session; world = unpaused x.unpause x.world })

  pub data Steps (y : System) : System → Type 0 where
    start : Steps y y
    next : {y' y'' : System} → Steps y y' → Step y' y'' → Steps y y''

  -- The program runs: the target ready, its lock as it was, the scheduler suspended as often as
  -- the program itself did and once more during a single step.
  pub record IsRunning (lock : Bool) (base : ℕ) (y : System) : Type 0 where
    pub ready : Ready y.session.target
    pub same_lock : locked y.session.target.hw_manager ≡ lock
    pub live : y.session.target.breaks_paused ≡ false
    pub suspended : y.world.suspensions ≡ base + held y.session.target
    pub up : IsUp y.session.stage

  module _ (lock : Bool) (base : ℕ) where
    interrupted :
        (y : System) (found : Bool) (t : V5Target) (g : o.Inner)
        → IsRunning lock base y
        → interrupt_if found y.session.target ≡ some t
        → IsRunning lock base (record y {
          session = record (y.session) { target = t; stage = active_stage (running g) };
        })
    interrupted y found t g r e =
        let (t', e', ready, same, _, frame, _) =
          interrupt_if_returns found y.session.target r.ready in
        subst
          (λ u. IsRunning lock base (record y {
            session = record (y.session) { target = u; stage = active_stage (running g) };
          }))
          (some_inj (sym e' ∙ e))
          (record {
            ready = ready;
            same_lock = same ∙ r.same_lock;
            live = ap (λ x. x.breaks_paused) frame ∙ r.live;
            suspended = r.suspended ∙ ap (λ x. base + held x) (sym frame);
            up = tt;
          })

    unpolled :
        (y : System) (s : DebugSession o.Inner)
        → IsRunning lock base y
        → y.session ≡ s
        → IsRunning lock base (record y { session = s })
    unpolled y s r e =
        subst (λ u. IsRunning lock base (record y { session = u })) e
          (record {
            ready = r.ready;
            same_lock = r.same_lock;
            live = r.live;
            suspended = r.suspended;
            up = r.up;
          })

    poll_at-IsRunning :
        (y : System) (rounds : ℕ) (s : DebugSession o.Inner)
        → IsRunning lock base y
        → (g : SessionStage o.Inner) → poll_at o rounds y.session g ≡ some s
        → IsRunning lock base (record y { session = s })
    unfolding poll_at
    poll_at-IsRunning y rounds s r (active_stage (running g)) e =
        let ((found, g'), a, e1) = >>=-eq-some (interrupt_found o rounds g) _ e in
        let (t, b, e2) = >>=-eq-some (interrupt_if found y.session.target) _ e1 in
        subst (λ u. IsRunning lock base (record y { session = u })) (some_inj e2)
          (interrupted y found t g' r b)
    poll_at-IsRunning y rounds s r (active_stage (idle g)) e = unpolled y s r (some_inj e)
    poll_at-IsRunning y rounds s r (active_stage (ctrl_c_interrupt g)) e =
        unpolled y s r (some_inj e)
    poll_at-IsRunning y rounds s r (active_stage (disconnected g)) e = unpolled y s r (some_inj e)
    poll_at-IsRunning y rounds s r (uninitialized g) e = unpolled y s r (some_inj e)
    poll_at-IsRunning y rounds s r transitioning e = unpolled y s r (some_inj e)

  -- The program's own suspensions after the steps, given those before.
  abbrev pub step_own : {y y' : System} → ℕ → Step y y' → ℕ
  step_own base (run_program m own) = own
  step_own base (irq_poll rounds s e) = base
  step_own base (debug_event rounds ports ctx x f e) = base

  abbrev pub own_suspensions : {y y' : System} → ℕ → Steps y y' → ℕ
  own_suspensions base start = base
  own_suspensions base (next steps s) = step_own (own_suspensions base steps) s

  module _ (lock : Bool) where
    Step-IsRunning :
        (v : Serves o) (base : ℕ) {y y' : System}
        → IsRunning lock base y
        → (s : Step y y') → IsRunning lock (step_own base s) y'
    unfolding poll
    Step-IsRunning v base {y} r (run_program m own) = record {
      ready = r.ready;
      same_lock = r.same_lock;
      live = r.live;
      suspended = refl;
      up = r.up;
    }
    Step-IsRunning v base {y} r (irq_poll rounds s e) =
        poll_at-IsRunning lock base y rounds s r y.session.stage e
    Step-IsRunning v base {y} r (debug_event rounds ports ctx x f e) =
        let (stands, _) =
          handle_debug_event_stands o v rounds ports ctx y.session y.world base r.ready r.up f
            r.suspended in
        let q : Resumed (locked y.session.target.hw_manager) base x =
          subst (EventStands (locked y.session.target.hw_manager) base) e stands in
        record {
          ready = q.ready;
          same_lock = q.same_lock ∙ r.same_lock;
          live = q.live;
          suspended = q.suspended;
          up = q.up;
        }

    -- In whatever order the program runs, polls request interrupts and debug events stop and resume
    -- the program: while it runs, the target is ready for the next single step or interrupt, the
    -- lock of the debug registers is as at the start, the target is not marked as having its
    -- breakpoints ignored, and the scheduler is suspended as often as the program itself last had it
    -- (at the start `base` times), and once more during a single step alone. The program may write
    -- any memory and suspend and resume the scheduler, but not resume what the debugger suspended.
    -- This supposes that every call of gdbstub's returns without an error and without a panic of the
    -- debugger's callbacks, that what it does to the target are calls of those and running the
    -- system's tasks, which leaves the suspensions as they are, and that events stop at program
    -- counters that can be fetched from.
    pub Steps-IsRunning :
        (v : Serves o) (base : ℕ) {y y' : System}
        → IsRunning lock base y
        → (steps : Steps y y') → IsRunning lock (own_suspensions base steps) y'
    Steps-IsRunning v base r start = r
    Steps-IsRunning v base r (next steps s) =
        Step-IsRunning v (own_suspensions base steps) (Steps-IsRunning v base r steps) s
