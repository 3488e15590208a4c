-- ===== src/Target/Events.antt =====
-- Debug events as a whole (src/gdb_target/mod.rs): what entering and leaving the debugger leave.
use v5gdb.Base.{
  ℕ, ◌+◌, ◌-◌, ◌%◌, ◌≡◌, refl, sym, ◌∙◌, ap, subst, inl, inr, Bool, true, false, not, ◌&&◌, none,
  some, Option-cases, ◌==◌, if◌then◌else◌, arith, Memory,
}
use v5gdb.Exceptions.{DebugEventContext, thumb}
use v5gdb.Cpu.Instruction.{Instruction, read, size}
use v5gdb.Cpu.Cache.{Machine}
use v5gdb.Breakpoint.Hardware.{locked, set_locked}
use v5gdb.Target.{
  V5Target, World, StopReason, hardware_break, tracked_software_break, untracked_software_break,
  interrupt, other, active,
}
use v5gdb.Target.Breaks.{set_breakpoints_ignored}
use v5gdb.Target.Entry.{
  is_none, classify_stop, finalize_single_step, finalize_interrupt, fixup_manual_bkpt,
  enter_breakpoint, leave_breakpoint,
}
use v5gdb.Target.Stepping.{
  Ready, demand, set_locked-IsValid, set_locked-Reserved, locked-set_locked,
  finalize_single_step_returns, finalize_interrupt_returns,
}

-- The program counter is one that the processor can fetch from: not null, and aligned.
abbrev pub fetchable : DebugEventContext → Bool
fetchable ctx =
    not (ctx.program_counter == 0)
    && (if thumb ctx then ctx.program_counter % 2 == 0 else ctx.program_counter % 4 == 0)

-- The finalizing steps change these three fields alone.
unfoldable pub Alike : V5Target → V5Target → Type 0
Alike t t' = t' ≡ record t {
  hw_manager = t'.hw_manager;
  single_step_request = t'.single_step_request;
  interrupt_pending = t'.interrupt_pending;
}

pub finalize_single_step-Alike : (t t' : V5Target) → finalize_single_step t ≡ some t' → Alike t t'
unfolding finalize_single_step Alike
finalize_single_step-Alike t t' e = ground arith

pub finalize_interrupt-Alike : (t t' : V5Target) → finalize_interrupt t ≡ some t' → Alike t t'
unfolding finalize_interrupt Alike
finalize_interrupt-Alike t t' e = ground arith

read-fetchable :
    (ctx : DebugEventContext) (m : Memory)
    → fetchable ctx ≡ true
    → (i : Instruction) × (read m ctx.program_counter (thumb ctx) ≡ some i)
unfolding read
read-fetchable ctx m h = elim (Option-cases (read m ctx.program_counter (thumb ctx))) [
  | inl e ↦ absurd (ground (arith, e, h))
  | inr x ↦ x
]

fixup_returns :
    (t : V5Target) (s : Machine)
    → fetchable t.exception_ctx ≡ true
    → (t' : V5Target) × (fixup_manual_bkpt t s ≡ some t')
      × (t' ≡ record t { exception_ctx = t'.exception_ctx })
unfolding fixup_manual_bkpt
fixup_returns t s h =
    let (i, e) = read-fetchable t.exception_ctx s.mem h in by_reason t.stop_reason refl i e
  where
    by_reason :
        (r : StopReason)
        → t.stop_reason ≡ r
        → (i : Instruction)
        → read s.mem t.exception_ctx.program_counter (thumb t.exception_ctx) ≡ some i
        → (t' : V5Target) × (fixup_manual_bkpt t s ≡ some t')
          × (t' ≡ record t { exception_ctx = t'.exception_ctx })
    by_reason untracked_software_break q i e = (
      record t {
        exception_ctx = record (t.exception_ctx) {
          program_counter = (t.exception_ctx.program_counter + size i) % 4294967296;
        };
      },
      rw q (rw e refl),
      refl,
    )
    by_reason hardware_break q i e = (t, rw q refl, refl)
    by_reason (tracked_software_break k) q i e = (t, rw q refl, refl)
    by_reason interrupt q i e = (t, rw q refl, refl)
    by_reason other q i e = (t, rw q refl, refl)

-- The target when the finalizing steps begin.
unfoldable pub stopped : DebugEventContext → V5Target → Machine → V5Target
unfolding set_breakpoints_ignored classify_stop
stopped ctx t s = classify_stop (record ((set_breakpoints_ignored true t s).0) {
  original_hw_lock_state = locked t.hw_manager;
  hw_manager = set_locked false t.hw_manager;
  exception_ctx = ctx;
  monitor_status = active;
})

stopped-Ready :
    (ctx : DebugEventContext) (t : V5Target) (s : Machine) → Ready t → Ready (stopped ctx t s)
unfolding stopped
stopped-Ready ctx t s r = record {
  valid = set_locked-IsValid false t.hw_manager r.valid;
  reserved =
      set_locked-Reserved false t.hw_manager (demand t.interrupt_pending t.single_step_request)
        r.reserved;
}

-- The target that is entered: ready, unlocked and active, with no request left, the lock recorded.
pub record IsEntered (t t' : V5Target) : Type 0 where
  pub ready : Ready t'
  pub unlocked : locked t'.hw_manager ≡ false
  pub no_request : t'.single_step_request ≡ none
  pub not_pending : t'.interrupt_pending ≡ false
  pub is_active : t'.monitor_status ≡ active
  pub recorded : t'.original_hw_lock_state ≡ locked t.hw_manager
  pub paused : t'.breaks_paused ≡ true

stopped_returns :
    (ctx : DebugEventContext) (t : V5Target) (s s' : Machine)
    → Ready t
    → fetchable ctx ≡ true
    → (t2 t3 t4 : V5Target) × (finalize_single_step (stopped ctx t s) ≡ some t2)
      × (finalize_interrupt t2 ≡ some t3)
      × (fixup_manual_bkpt t3 s' ≡ some t4)
      × IsEntered t t4
      × (t4.stop_reason ≡ (stopped ctx t s).stop_reason)
unfolding Alike stopped
stopped_returns ctx t s s' r f =
    let (t2, e2, r2, u2, n2, p2) =
      finalize_single_step_returns (stopped ctx t s) (stopped-Ready ctx t s r)
        (locked-set_locked false t.hw_manager) in
    let a2 = finalize_single_step-Alike (stopped ctx t s) t2 e2 in
    let (t3, e3, r3, u3, n3, p3) = finalize_interrupt_returns t2 r2 u2 n2 in
    let a3 = finalize_interrupt-Alike t2 t3 e3 in
    let c3 : t3.exception_ctx ≡ ctx = ap (λ x. x.exception_ctx) a3 ∙ ap (λ x. x.exception_ctx) a2 in
    let (t4, e4, a4) = fixup_returns t3 s' (subst (λ c. fetchable c ≡ true) (sym c3) f) in
    (
      t2,
      t3,
      t4,
      e2,
      e3,
      e4,
      record {
        ready = subst Ready (sym a4) (record { valid = r3.valid; reserved = r3.reserved });
        unlocked = ap (λ x. locked x.hw_manager) a4 ∙ u3;
        no_request = ap (λ x. x.single_step_request) a4 ∙ n3;
        not_pending = ap (λ x. x.interrupt_pending) a4 ∙ p3;
        is_active =
            ap (λ x. x.monitor_status) a4
            ∙ ap (λ x. x.monitor_status) a3
            ∙ ap (λ x. x.monitor_status) a2;
        recorded =
            ap (λ x. x.original_hw_lock_state) a4
            ∙ ap (λ x. x.original_hw_lock_state) a3
            ∙ ap (λ x. x.original_hw_lock_state) a2;
        paused =
            ap (λ x. x.breaks_paused) a4
            ∙ ap (λ x. x.breaks_paused) a3
            ∙ ap (λ x. x.breaks_paused) a2;
      },
      ap (λ x. x.stop_reason) a4 ∙ ap (λ x. x.stop_reason) a3 ∙ ap (λ x. x.stop_reason) a2,
    )

-- How often the scheduler is suspended, beyond the user's own suspensions, while the program runs:
-- once during a single step.
abbrev pub held : V5Target → ℕ
held t = if is_none t.single_step_request then 0 else 1

-- On a ready target and a program counter that can be fetched from, `enter_breakpoint` does not
-- panic. It leaves the target ready, its registers unlocked and the lock recorded, breakpoints
-- paused, and neither a single step nor an interrupt pending. If the scheduler was suspended as
-- often as a running program has it, it is suspended once more than by the user.
pub enter_breakpoint_returns :
    (ctx : DebugEventContext) (t : V5Target) (w : World) (base : ℕ)
    → Ready t
    → fetchable ctx ≡ true
    → w.suspensions ≡ base + held t
    → (x : V5Target × World) × (enter_breakpoint ctx t w ≡ some x)
      × IsEntered t x.0
      × (x.1.suspensions ≡ base + 1)
unfolding enter_breakpoint stopped
enter_breakpoint_returns ctx t w base r f h =
    let s = (set_breakpoints_ignored true t w.machine).1 in
    let (t2, t3, t4, e2, e3, e4, entered, _) = stopped_returns ctx t w.machine s r f in
    (
      (
        t4,
        record {
          machine = s;
          suspensions = if is_none t.single_step_request then w.suspensions + 1 else w.suspensions;
        },
      ),
      rw e2 (rw e3 (rw e4 refl)),
      entered,
      ground (arith, h),
    )

-- After `leave_breakpoint` and the resumption of the scheduler that its result asks for, the
-- scheduler is suspended as often as a running program has it: if no single step was requested, as
-- often as by the user, else once more. The lock is what was recorded, the context that the program
-- goes on with is the debugger's, breakpoints are not marked as ignored, and the target is ready.
pub leave_breakpoint-held :
    (t : V5Target) (w : World) (base : ℕ)
    → Ready t
    → w.suspensions ≡ base + 1
    → let (ctx, resume, t', w') = leave_breakpoint t w in
      (w'.suspensions - (if resume then 1 else 0) ≡ base + held t')
      × (locked t'.hw_manager ≡ t.original_hw_lock_state)
      × (ctx ≡ t.exception_ctx)
      × (t'.breaks_paused ≡ false)
      × Ready t'
unfolding leave_breakpoint set_breakpoints_ignored
leave_breakpoint-held t w base r h = (
  ground (arith, h),
  locked-set_locked t.original_hw_lock_state t.hw_manager,
  refl,
  refl,
  record {
    valid = set_locked-IsValid t.original_hw_lock_state t.hw_manager r.valid;
    reserved =
        set_locked-Reserved t.original_hw_lock_state t.hw_manager
          (demand t.interrupt_pending t.single_step_request) r.reserved;
  },
)
