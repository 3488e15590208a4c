-- ===== src/Debugger/Stop.antt =====
-- Who is told of a stop: GDB, or nobody (src/debugger/mod.rs, `handle_stop`).
pub mod Shown
use v5gdb.Base.{
  ℕ, ◌+◌, ◌≡◌, ◌⊎◌, refl, sym, ◌∙◌, ap, subst, inl, inr, Bool, true, false, ◌&&◌, ◌||◌, Option,
  none, some, List, [], ◌∷◌, Bool-cases, ◌==◌, if◌then◌else◌, arith,
}
use v5gdb.Exceptions.{DebugEventContext}
use v5gdb.Breakpoint.Software.{SwBreakpoint}
use v5gdb.Breakpoint.Hardware.{locked}
use v5gdb.Target.{
  V5Target, World, StopReason, hardware_break, tracked_software_break, untracked_software_break,
  interrupt, other, exiting,
}
use v5gdb.Target.Breaks.{remove_sw_breakpoint}
use v5gdb.Target.Entry.{enter_breakpoint}
use v5gdb.Target.Events.{IsEntered, fetchable, held, enter_breakpoint_returns}
use v5gdb.Target.Report.{breakpoint}
use v5gdb.Target.Stepping.{Ready}
use v5gdb.Target.Tracked.{enter_breakpoint_tracked}
use v5gdb.Debugger.{
  Env, SessionStage, InternalBreakpoint, system_exit_request, DebugSession, StopAction, resume,
  enter_monitor, has_client, find_internal, flatten, exit_requested, handle_internal_breakpoint,
  handle_stop,
}
use v5gdb.Debugger.Callbacks.Paused.{IsPaused, kept_sw, remove_sw_frame}
use v5gdb.Debugger.Console.{is_exiting}

-- Whether an internal breakpoint has the address.
abbrev pub is_internal : ℕ → List (InternalBreakpoint × ℕ) → Bool
is_internal pc [] = false
is_internal pc ((id, addr) ∷ r) = (addr == pc) || is_internal pc r

find_internal_cases :
    (pc : ℕ) (l : List (InternalBreakpoint × ℕ))
    → ((is_internal pc l ≡ false) × (find_internal pc l ≡ none))
      ⊎ ((addr : ℕ) × (is_internal pc l ≡ true)
          × (find_internal pc l ≡ some (system_exit_request, addr)))
unfolding find_internal
find_internal_cases pc [] = inl (refl, refl)
find_internal_cases pc ((system_exit_request, addr) ∷ r) = elim (Bool-cases (addr == pc)) [
  | inl e ↦ inr (addr, ground (arith, e), ground (arith, e))
  | inr e ↦ elim (find_internal_cases pc r) [
    | inl (a, f) ↦ inl (ground (arith, e, a), ground (arith, e, f))
    | inr (b, a, f) ↦ inr (b, ground (arith, e, a), ground (arith, e, f))
  ]
]

module _ {A : Type 0} where
  -- The session and the world as GDB's requests see them.
  abbrev pub env_of : DebugSession A → World → Env
  env_of s w = record { target = s.target; world = w }

  -- The stop is the program's exit, and a client has to be told of it first.
  abbrev pub exits : DebugSession A → ℕ → Bool
  exits s pc = has_client s.stage && is_internal pc (flatten s.internal_breaks)

  -- What a handler leaves: its action, the client told of an exit or not, and the program paused.
  pub record Handled (lock : Bool) (n : ℕ) (s : DebugSession A) (told : Bool) (action : StopAction)
      (s' : DebugSession A) (w' : World) (action' : StopAction) : Type 0 where
    pub same_action : action' ≡ action
    pub status : is_exiting s'.target.monitor_status ≡ told
    pub still_paused : IsPaused lock n (env_of s' w')
    pub same_stage : s'.stage ≡ s.stage
    pub same_breaks : s'.internal_breaks ≡ s.internal_breaks

  module _ (lock : Bool) (n : ℕ) (s : DebugSession A) (w : World) (p : IsPaused lock n (env_of s w))
      (not_exiting : is_exiting s.target.monitor_status ≡ false) where
    -- Nothing was done.
    unhandled : Handled lock n s false resume s w resume
    unhandled = record {
      same_action = refl;
      status = not_exiting;
      still_paused = p;
      same_stage = refl;
      same_breaks = refl;
    }

    exit_requested_returns :
        (addr : ℕ)
        → let (action, s', w') = exit_requested s w addr in
          Handled lock n s
            (has_client s.stage)
            (if has_client s.stage then enter_monitor else resume)
            s'
            w'
            action
    unfolding exit_requested
    exit_requested_returns addr =
        let (b, t, m) = remove_sw_breakpoint addr true s.target w.machine in
        let f = remove_sw_frame addr true s.target t w.machine m b refl in
        let q = kept_sw lock n (env_of s w) t m p f in
        elim (Bool-cases (has_client s.stage)) [
          | inl c ↦ rw c (record {
            same_action = refl;
            status = refl;
            still_paused = record {
              ready = record { valid = q.ready.valid; reserved = q.ready.reserved };
              unlocked = q.unlocked;
              not_pending = q.not_pending;
              paused = q.paused;
              recorded = q.recorded;
              suspended = q.suspended;
            };
            same_stage = refl;
            same_breaks = refl;
          })
          | inr c ↦ rw c (record {
            same_action = refl;
            status = ap (λ x. is_exiting x.monitor_status) f ∙ not_exiting;
            still_paused = q;
            same_stage = refl;
            same_breaks = refl;
          })
        ]

    handle_internal_breakpoint_returns :
        let pc = s.target.exception_ctx.program_counter in
        (x : StopAction × DebugSession A × World) × (handle_internal_breakpoint s w ≡ some x)
        × Handled lock n s (exits s pc) (if exits s pc then enter_monitor else resume) x.1 x.2 x.0
    unfolding handle_internal_breakpoint
    handle_internal_breakpoint_returns =
        elim (find_internal_cases s.target.exception_ctx.program_counter
          (flatten s.internal_breaks)) [
            | inl (absent, f) ↦ (
              (resume, s, w),
              ground (arith, p.paused, f),
              subst (λ b. Handled lock n s b (if b then enter_monitor else resume) s w resume)
                  (sym (no_exit absent)) unhandled,
            )
            | inr (addr, present, f) ↦ (
              exit_requested s w addr,
              ground (arith, p.paused, f),
              subst
                  (λ b.
                    let (action, s', w') = exit_requested s w addr in
                    Handled lock n s b (if b then enter_monitor else resume) s' w' action)
                  (sym (an_exit present)) (exit_requested_returns addr),
            )
          ]
      where
        no_exit :
            is_internal s.target.exception_ctx.program_counter (flatten s.internal_breaks) ≡ false
            → exits s s.target.exception_ctx.program_counter ≡ false
        no_exit h = ground (arith, h)

        an_exit :
            is_internal s.target.exception_ctx.program_counter (flatten s.internal_breaks) ≡ true
            → exits s s.target.exception_ctx.program_counter ≡ has_client s.stage
        an_exit h = ground (arith, h)

    -- The action for a breakpoint that is wanted by the user or by the debugger itself.
    abbrev pub told : SwBreakpoint → Bool
    told b = b.reason.internal && exits s s.target.exception_ctx.program_counter

    pub handle_tracked :
        (id : ℕ) (b : SwBreakpoint)
        → breakpoint id s.target ≡ some (some b)
        → (x : StopAction × DebugSession A × World) × (handle_stop s w (tracked_software_break id)
            ≡ some x)
          × Handled lock n s
              (told b)
              (if b.reason.user || told b then enter_monitor else resume)
              x.1
              x.2
              x.0
    unfolding handle_stop
    handle_tracked id b at = elim (Bool-cases b.reason.internal) [
      | inl e ↦
          let ((action, s', w'), f, h) = handle_internal_breakpoint_returns in
          (
            (if b.reason.user then enter_monitor else action, s', w'),
            rw (at, e, f) refl,
            record {
              same_action = ground (arith, e, h.same_action);
              status = h.status ∙ ground (arith, e);
              still_paused = h.still_paused;
              same_stage = h.same_stage;
              same_breaks = h.same_breaks;
            },
          )
      | inr e ↦ (
        (if b.reason.user then enter_monitor else resume, s, w),
        rw (at, e) refl,
        record {
          same_action = ground (arith, e);
          status = not_exiting ∙ ground (arith, e);
          still_paused = p;
          same_stage = refl;
          same_breaks = refl;
        },
      )
    ]
