-- ===== src/Debugger/Console/Returns.antt =====
-- What a debug event leaves, from entry to exit (src/debugger/mod.rs, `handle_debug_event`).
use v5gdb.Base.{
  ℕ, zero, suc, ◌≡◌, refl, sym, ◌∙◌, subst, inl, inr, Bool, true, false, Option, none, some,
  Bool-cases, arith,
}
use v5gdb.Target.{World}
use v5gdb.Target.Report.{ReportedReason, gdb_stop_reason}
use v5gdb.Debugger.{Env, Outside, StateMachine, idle, running, ctrl_c_interrupt, disconnected}
use v5gdb.Debugger.Callbacks.{Callbacks}
use v5gdb.Debugger.Callbacks.Paused.{IsPaused, Callbacks-IsPaused}
use v5gdb.Debugger.Console.{
  Run, panicked, waiting, finished, is_exited, is_exiting, is_resuming, resuming_if, on_read,
  tick_state_machine, round, console,
}

-- A call of gdbstub succeeds and acts on the target by callbacks alone.
abbrev pub Answers : (A : Type 0) → Env → Option (StateMachine A × Env) → Type 0
Answers A e r = (x : StateMachine A × Env) × (r ≡ some x) × Callbacks e x.1

-- Every call of gdbstub does so, and the tasks of VEXos leave the scheduler's suspensions alone.
pub record Serves (o : Outside) : Type 0 where
  pub starts : (g : o.Inner) (e : Env) → Answers o.Inner e (o.run_state_machine g e)
  pub takes : (g : o.Inner) (byte : ℕ) (e : Env) → Answers o.Inner e (o.incoming_data g byte e)
  pub reports :
      (g : o.Inner) (r : ReportedReason) (e : Env) → Answers o.Inner e (o.report_stop g r e)
  pub interrupts : (g : o.Inner) (e : Env) → Answers o.Inner e (o.interrupt_handled g e)
  pub tasks : (w : World) → (o.tasks_run w).suspensions ≡ w.suspensions

-- The rounds of the console, one by one.
module _ (o : Outside) where
  pub console_done :
      (rounds : ℕ) (m : StateMachine o.Inner) (e : Env)
      → is_resuming e.target.monitor_status ≡ true
      → console o rounds m e ≡ finished (m, e)
  unfolding console
  console_done zero m e r = rw r refl
  console_done (suc rounds) m e r = ground (arith, r)

  console_over :
      (m : StateMachine o.Inner) (e : Env)
      → is_resuming e.target.monitor_status ≡ false
      → console o zero m e ≡ waiting (m, e)
  unfolding console
  console_over m e r = rw r refl

  pub console_next :
      (rounds : ℕ) (m : StateMachine o.Inner) (e : Env) (x : StateMachine o.Inner × Env)
      → is_resuming e.target.monitor_status ≡ false
      → round o m e ≡ some x
      → console o (suc rounds) m e ≡ console o rounds x.0 x.1
  unfolding console
  console_next rounds m e x r f = ground (arith, r, f)

module _ (lock : Bool) (n : ℕ) where
  -- The status is no part of it.
  resuming_if-IsPaused :
      (b : Bool) (e : Env) → IsPaused lock n e → IsPaused lock n (resuming_if b e)
  resuming_if-IsPaused false e p = p
  resuming_if-IsPaused true e p = record {
    ready = record { valid = p.ready.valid; reserved = p.ready.reserved };
    unlocked = p.unlocked;
    not_pending = p.not_pending;
    paused = p.paused;
    recorded = p.recorded;
    suspended = p.suspended;
  }

  -- How a run of the console stands: paused, and ended only if the program is to go on.
  abbrev pub StandsAt : {A : Type 0} → Run (A × Env) (A × Env) → Type 0
  StandsAt panicked = ⊥
  StandsAt (waiting (m, e)) = IsPaused lock n e
  StandsAt (finished (m, e)) = IsPaused lock n e × (is_resuming e.target.monitor_status ≡ true)

  module _ (o : Outside) (v : Serves o) where
    answered :
        (e : Env) (r : Option (StateMachine o.Inner × Env))
        → Answers o.Inner e r
        → IsPaused lock n e
        → (x : StateMachine o.Inner × Env) × (r ≡ some x) × IsPaused lock n x.1
    answered e r (x, eq, cs) p = (x, eq, Callbacks-IsPaused lock n cs p)

    tick_returns :
        (m : StateMachine o.Inner) (e : Env)
        → IsPaused lock n e
        → (x : StateMachine o.Inner × Env) × (tick_state_machine o m e ≡ some x)
          × IsPaused lock n x.1
    unfolding tick_state_machine
    tick_returns (idle g) e p = by_read (o.read g)
      where
        by_read :
            (q : Option ℕ × o.Inner)
            → (x : StateMachine o.Inner × Env) × (on_read o q e ≡ some x) × IsPaused lock n x.1
        by_read (none, g') = ((idle g', e), refl, p)
        by_read (some byte, g') = answered e (o.incoming_data g' byte e) (v.takes g' byte e) p
    tick_returns (running g) e p =
        let reason = gdb_stop_reason e.target (o.current_thread e.world) in
        let e' = resuming_if (is_exited reason) e in
        answered e' (o.report_stop g reason e') (v.reports g reason e')
          (resuming_if-IsPaused (is_exited reason) e p)
    tick_returns (ctrl_c_interrupt g) e p =
        answered e (o.interrupt_handled g e) (v.interrupts g e) p
    tick_returns (disconnected g) e p = (
      (o.return_to_idle g, resuming_if (is_exiting e.target.monitor_status) e),
      refl,
      resuming_if-IsPaused (is_exiting e.target.monitor_status) e p,
    )

    round_returns :
        (m : StateMachine o.Inner) (e : Env)
        → IsPaused lock n e
        → (x : StateMachine o.Inner × Env) × (round o m e ≡ some x) × IsPaused lock n x.1
    unfolding round
    round_returns m e p =
        tick_returns m (record e { world = o.tasks_run e.world })
          (record {
            ready = p.ready;
            unlocked = p.unlocked;
            not_pending = p.not_pending;
            paused = p.paused;
            recorded = p.recorded;
            suspended = v.tasks e.world ∙ p.suspended;
          })

    -- After any number of rounds the console has not panicked.
    pub console_stands :
        (rounds : ℕ) (m : StateMachine o.Inner) (e : Env)
        → IsPaused lock n e
        → StandsAt (console o rounds m e)
    console_stands zero m e p = elim (Bool-cases (is_resuming e.target.monitor_status)) [
      | inl r ↦ subst StandsAt (sym (console_done o zero m e r)) (p, r)
      | inr r ↦ subst StandsAt (sym (console_over o m e r)) p
    ]
    console_stands (suc rounds) m e p = elim (Bool-cases (is_resuming e.target.monitor_status)) [
      | inl r ↦ subst StandsAt (sym (console_done o (suc rounds) m e r)) (p, r)
      | inr r ↦
          let (x, f, q) = round_returns m e p in
          subst StandsAt (sym (console_next o rounds m e x r f)) (console_stands rounds x.0 x.1 q)
    ]
