-- ===== src/Target/Tracked.antt =====
-- A stop at a tracked breakpoint finds the breakpoint in its slot (src/gdb_target/mod.rs).
use v5gdb.Base.{
  >>=-eq-some, ℕ, suc, ◌+◌, ◌≡◌, refl, sym, ◌∙◌, ap, subst, inl, inr, true, none, some, some_inj,
  [], ◌∷◌, get_elem?, Bool-cases, ◌==◌, arith,
}
use v5gdb.Exceptions.{DebugEventContext}
use v5gdb.Cpu.Cache.{Machine}
use v5gdb.Breakpoint.Software.{SwBreakpoint}
use v5gdb.Target.{V5Target, World, Slots, tracked_software_break}
use v5gdb.Target.Breaks.{set_breakpoints_ignored, position, query_sw_breakpoint}
use v5gdb.Target.Entry.{
  classify, classify_stop, finalize_single_step, finalize_interrupt, fixup_manual_bkpt,
  enter_breakpoint,
}
use v5gdb.Target.Events.{Alike, finalize_single_step-Alike, finalize_interrupt-Alike, stopped}
use v5gdb.Target.Report.{breakpoint}

-- The slot that is found has the address.
position-some :
    (addr : ℕ) (bs : Slots) (i j : ℕ)
    → position addr bs i ≡ some j
    → (b : SwBreakpoint) × (k : ℕ) × (j ≡ i + k)
      × (get_elem? bs k ≡ some (some b))
      × (b.instr_addr ≡ addr)
unfolding position
position-some addr [] i j h = absurd (cc)
position-some addr (none ∷ bs) i j h =
    let (b, k, e, g, a) = position-some addr bs (suc i) j h in (b, suc k, omega arith, g, a)
position-some addr (some b ∷ bs) i j h = elim (Bool-cases (b.instr_addr == addr)) [
  | inl e ↦ (b, 0, ground arith, refl, ground arith)
  | inr e ↦
      let (c, k, q, g, a) = position-some addr bs (suc i) j (ground arith) in
      (c, suc k, omega arith, g, a)
]

stopped_tracked :
    (ctx : DebugEventContext) (t : V5Target) (s : Machine) (id : ℕ)
    → (stopped ctx t s).stop_reason ≡ tracked_software_break id
    → position ctx.program_counter (stopped ctx t s).breaks 0 ≡ some id
unfolding stopped classify_stop classify query_sw_breakpoint
stopped_tracked ctx t s id h = ground arith

fixup_frame :
    (t t' : V5Target) (s : Machine)
    → fixup_manual_bkpt t s ≡ some t'
    → (t'.stop_reason ≡ t.stop_reason)
      × (t'.stop_motors_on_break ≡ t.stop_motors_on_break)
      × ((id : ℕ) → t.stop_reason ≡ tracked_software_break id → t' ≡ t)
unfolding fixup_manual_bkpt
fixup_frame t t' s e = (ground arith, ground arith, λ id h. ground arith)

-- The steps of an entry.
enter_steps :
    (ctx : DebugEventContext) (t t' : V5Target) (w w' : World)
    → enter_breakpoint ctx t w ≡ some (t', w')
    → (t2 t3 : V5Target) × (finalize_single_step (stopped ctx t w.machine) ≡ some t2)
      × (finalize_interrupt t2 ≡ some t3)
      × (fixup_manual_bkpt t3 w'.machine ≡ some t')
unfolding enter_breakpoint stopped
enter_steps ctx t t' w w' e =
    let (t2, e2, f2) = >>=-eq-some (finalize_single_step (stopped ctx t w.machine)) _ e in
    let (t3, e3, f3) = >>=-eq-some (finalize_interrupt t2) _ f2 in
    let (t4, e4, f4) =
      >>=-eq-some (fixup_manual_bkpt t3 (set_breakpoints_ignored true t w.machine).1) _ f3 in
    (
      t2,
      t3,
      e2,
      e3,
      subst (λ (x : V5Target × World). fixup_manual_bkpt t3 x.1.machine ≡ some x.0) (some_inj f4)
          e4,
    )

-- When `enter_breakpoint` says that a tracked breakpoint was hit, its slot holds a breakpoint at the
-- program counter of the stop, and the debugger's context is the program's.
pub enter_breakpoint_tracked :
    (ctx : DebugEventContext) (t t' : V5Target) (w w' : World) (id : ℕ)
    → enter_breakpoint ctx t w ≡ some (t', w')
    → t'.stop_reason ≡ tracked_software_break id
    → (b : SwBreakpoint) × (breakpoint id t' ≡ some (some b))
      × (b.instr_addr ≡ ctx.program_counter)
      × (t'.exception_ctx ≡ ctx)
unfolding breakpoint stopped Alike
enter_breakpoint_tracked ctx t t' w w' id e h =
    let (t2, t3, e2, e3, e4) = enter_steps ctx t t' w w' e in
    let a2 = finalize_single_step-Alike (stopped ctx t w.machine) t2 e2 in
    let a3 = finalize_interrupt-Alike t2 t3 e3 in
    let (f, _, g) = fixup_frame t3 t' w'.machine e4 in
    let same : t' ≡ t3 = g id (sym f ∙ h) in
    let reason : (stopped ctx t w.machine).stop_reason ≡ tracked_software_break id =
      sym (ap (λ x. x.stop_reason) same ∙ ap (λ x. x.stop_reason) a3 ∙ ap (λ x. x.stop_reason) a2)
      ∙ h in
    let same_breaks : t'.breaks ≡ (stopped ctx t w.machine).breaks =
      ap (λ x. x.breaks) same ∙ ap (λ x. x.breaks) a3 ∙ ap (λ x. x.breaks) a2 in
    let (b, k, q, at, addr) =
      position-some ctx.program_counter (stopped ctx t w.machine).breaks 0 id
        (stopped_tracked ctx t w.machine id reason) in
    (
      b,
      subst (λ (l : Slots). get_elem? l id ≡ some (some b)) (sym same_breaks)
          (subst (λ i. get_elem? (stopped ctx t w.machine).breaks i ≡ some (some b)) (omega arith)
            at),
      addr,
      ap (λ x. x.exception_ctx) same ∙ ap (λ x. x.exception_ctx) a3 ∙ ap (λ x. x.exception_ctx) a2,
    )

pub enter_breakpoint_motors :
    (ctx : DebugEventContext) (t t' : V5Target) (w w' : World)
    → enter_breakpoint ctx t w ≡ some (t', w')
    → t'.stop_motors_on_break ≡ t.stop_motors_on_break
unfolding stopped Alike set_breakpoints_ignored classify_stop
enter_breakpoint_motors ctx t t' w w' e =
    let (t2, t3, e2, e3, e4) = enter_steps ctx t t' w w' e in
    (fixup_frame t3 t' w'.machine e4).1
    ∙ ap (λ x. x.stop_motors_on_break) (finalize_interrupt-Alike t2 t3 e3)
    ∙ ap (λ x. x.stop_motors_on_break) (finalize_single_step-Alike (stopped ctx t w.machine) t2 e2)
