-- ===== src/Debugger/Callbacks/Paused.antt =====
-- What every call of gdbstub keeps while the program is paused (src/debugger/mod.rs).
use v5gdb.Base.{
  ℕ, ◌≡◌, ◌≢◌, refl, sym, ◌∙◌, ap, subst, inl, inr, Bool, true, false, none, some, some_inj,
  Option-cases, arith, List, Memory,
}
use v5gdb.Cpu.Cache.{Machine}
use v5gdb.Arch.{ArmBreakpointKind, ArmRegisterId}
use v5gdb.Exceptions.{DebugEventContext}
use v5gdb.Sys.Interface.{DebuggerSystem}
use v5gdb.Breakpoint.{BreakpointError, Result, ok, err}
use v5gdb.Breakpoint.Hardware.{locked, split_addr, add_breakpoint_at}
use v5gdb.Target.{V5Target, World}
use v5gdb.Target.Breaks.{
  add_sw_breakpoint, remove_sw_breakpoint, register_sw_breakpoint, register_found, place_at,
}
use v5gdb.Target.Entry.{request_single_step, add_hw_breakpoint, remove_hw_breakpoint, step_kind}
use v5gdb.Target.Registers.{resume}
use v5gdb.Target.Threads.{ThreadAccess}
use v5gdb.Target.Session.{
  add_hw_breakpoint-Ready, remove_hw_breakpoint-Ready, request_single_step_lem, requested,
}
use v5gdb.Target.Stepping.{Ready}
use v5gdb.Debugger.{Env}
use v5gdb.Debugger.Console.{is_resuming}
use v5gdb.Debugger.Callbacks.{
  Callback, write_registers, write_addrs, write_thread_registers, write_thread_register, add_sw,
  remove_sw, add_hw, remove_hw, step_program, resume_program, set_autostop, Callbacks, none_made,
  call,
}

-- The paused program: the target ready and unlocked, with no interrupt pending, breakpoints ignored
-- and the lock recorded, and the scheduler suspended `n` times.
pub record IsPaused (lock : Bool) (n : ℕ) (e : Env) : Type 0 where
  pub ready : Ready e.target
  pub unlocked : locked e.target.hw_manager ≡ false
  pub not_pending : e.target.interrupt_pending ≡ false
  pub paused : e.target.breaks_paused ≡ true
  pub recorded : e.target.original_hw_lock_state ≡ lock
  pub suspended : e.world.suspensions ≡ n

add_sw_frame :
    (addr : ℕ) (kind : ArmBreakpointKind) (t t' : V5Target) (s s' : Machine) (b : Bool)
    → add_sw_breakpoint addr kind t s ≡ some (b, t', s')
    → t' ≡ record t { breaks = t'.breaks }
unfolding add_sw_breakpoint register_sw_breakpoint register_found place_at
add_sw_frame addr kind t t' s s' b e = ground arith

pub remove_sw_frame :
    (addr : ℕ) (internal : Bool) (t t' : V5Target) (s s' : Machine) (b : Bool)
    → remove_sw_breakpoint addr internal t s ≡ (b, t', s')
    → t' ≡ record t { breaks = t'.breaks }
unfolding remove_sw_breakpoint
remove_sw_frame addr internal t t' s s' b e = ground (arith, ap (λ x. x.1) e)

-- Writing the registers of any thread changes the context alone in the target.
write_thread_registers_frame :
    (sys : DebuggerSystem) (tid : ℕ) (regs : DebugEventContext) (t t' : V5Target) (m m' : Memory)
    (a : ThreadAccess (Unit {0}))
    → v5gdb.Target.Threads.write_thread_registers sys tid regs t m ≡ some (a, t', m')
    → t' ≡ record t { exception_ctx = t'.exception_ctx }
unfolding v5gdb.Target.Threads.write_thread_registers
write_thread_registers_frame sys tid regs t t' m m' a e = ground arith

write_thread_register_frame :
    (sys : DebuggerSystem) (tid : ℕ) (id : ArmRegisterId) (val : List ℕ) (t t' : V5Target)
    (m m' : Memory) (a : ThreadAccess (Unit {0}))
    → v5gdb.Target.Threads.write_thread_register sys tid id val t m ≡ some (a, t', m')
    → t' ≡ record t { exception_ctx = t'.exception_ctx }
unfolding v5gdb.Target.Threads.write_thread_register
write_thread_register_frame sys tid id val t t' m m' a e = ground arith

step_status :
    (t t' : V5Target)
    → request_single_step t ≡ some (ok tt, t')
    → t'.monitor_status ≡ t.monitor_status
unfolding request_single_step
step_status t t' e = ground arith

add_hw_frame :
    (addr : ℕ) (kind : ArmBreakpointKind) (t t' : V5Target) (b : Bool)
    → add_hw_breakpoint addr kind t ≡ some (b, t')
    → t' ≡ record t { hw_manager = t'.hw_manager }
unfolding add_hw_breakpoint
add_hw_frame addr kind t t' b e = ground arith

remove_hw_frame :
    (addr : ℕ) (kind : ArmBreakpointKind) (t t' : V5Target) (b : Bool)
    → remove_hw_breakpoint addr kind t ≡ some (b, t')
    → t' ≡ record t { hw_manager = t'.hw_manager }
unfolding remove_hw_breakpoint
remove_hw_frame addr kind t t' b e = ground arith

-- A target that differs in the manager and the request alone, and is ready.
abbrev Requested : V5Target → V5Target → Type 0
Requested t t' =
    Ready t'
    × (locked t'.hw_manager ≡ false)
    × (t' ≡ record t { hw_manager = t'.hw_manager; single_step_request = t'.single_step_request })

fails :
    (t : V5Target) (x : BreakpointError)
    → locked t.hw_manager ≡ false
    → t.single_step_request ≡ none
    → split_addr t.exception_ctx.program_counter (step_kind t) ≡ err x
    → (t' : V5Target) → request_single_step t ≢ some (ok tt, t')
unfolding request_single_step add_breakpoint_at
fails t x u n q t' e = ground (arith, u, n, q, e)

by_split :
    (t t' : V5Target)
    → Ready t
    → locked t.hw_manager ≡ false
    → t.interrupt_pending ≡ false
    → t.single_step_request ≡ none
    → request_single_step t ≡ some (ok tt, t')
    → (r : Result (ℕ × ℕ)) → split_addr t.exception_ctx.program_counter (step_kind t) ≡ r
    → Requested t t'
by_split t t' r u p n e (err x) q = absurd (fails t x u n q t' e)
by_split t t' r u p n e (ok (word, bas)) q =
    let (m, f, ready, unlocked, _) = request_single_step_lem t word bas r u p n q in
    let same : requested t m ≡ t' = cc (some_inj (sym f ∙ e)) in
    subst (Requested t) same (ready, unlocked, refl)

-- A request that succeeds changes the manager and the request alone, which stay ready.
step_frame :
    (t t' : V5Target)
    → Ready t
    → locked t.hw_manager ≡ false
    → t.interrupt_pending ≡ false
    → request_single_step t ≡ some (ok tt, t')
    → Requested t t'
unfolding request_single_step
step_frame t t' r u p e = elim (Option-cases t.single_step_request) [
  | inl n ↦ by_split t t' r u p n e (split_addr t.exception_ctx.program_counter (step_kind t)) refl
  | inr (q, n) ↦ let same : t ≡ t' = ground (arith, e, n) in subst (Requested t) same (r, u, refl)
]

-- The fields that no call touches.
abbrev Untouched : V5Target → V5Target → Type 0
Untouched t t' =
    (t'.interrupt_pending ≡ t.interrupt_pending)
    × (t'.breaks_paused ≡ t.breaks_paused)
    × (t'.original_hw_lock_state ≡ t.original_hw_lock_state)

untouched : (t : V5Target) {t' u : V5Target} → t' ≡ u → Untouched t u → Untouched t t'
untouched t f h = subst (Untouched t) (sym f) h

module _ (lock : Bool) (n : ℕ) where
  kept :
      (e : Env) (t : V5Target) (w : World)
      → IsPaused lock n e
      → Ready t
      → locked t.hw_manager ≡ false
      → Untouched e.target t
      → w.suspensions ≡ e.world.suspensions
      → IsPaused lock n (record { target = t; world = w })
  kept e t w p r u h s = record {
    ready = r;
    unlocked = u;
    not_pending = h.0 ∙ p.not_pending;
    paused = h.1 ∙ p.paused;
    recorded = h.2 ∙ p.recorded;
    suspended = s ∙ p.suspended;
  }

  -- A change of the slots of software breakpoints.
  pub kept_sw :
      (e : Env) (t : V5Target) (m : Machine)
      → IsPaused lock n e
      → t ≡ record (e.target) { breaks = t.breaks }
      → IsPaused lock n (record { target = t; world = record (e.world) { machine = m } })
  kept_sw e t m p f =
      kept e t (record (e.world) { machine = m }) p
        (subst Ready (sym f) (record { valid = p.ready.valid; reserved = p.ready.reserved }))
        (ap (λ x. locked x.hw_manager) f ∙ p.unlocked) (untouched e.target f (refl, refl, refl))
        refl

  -- A write to the registers of a thread.
  kept_thread :
      (e : Env) (t : V5Target) (mem : Memory)
      → IsPaused lock n e
      → t ≡ record (e.target) { exception_ctx = t.exception_ctx }
      → IsPaused lock n (record {
        target = t;
        world = record (e.world) { machine = record (e.world.machine) { mem = mem } };
      })
  kept_thread e t mem p f =
      kept e t (record (e.world) { machine = record (e.world.machine) { mem = mem } }) p
        (subst Ready (sym f) (record { valid = p.ready.valid; reserved = p.ready.reserved }))
        (ap (λ x. locked x.hw_manager) f ∙ p.unlocked) (untouched e.target f (refl, refl, refl))
        refl

  -- One call.
  Callback-IsPaused : {e e' : Env} → Callback e e' → IsPaused lock n e → IsPaused lock n e'
  unfolding resume
  Callback-IsPaused {e} (write_registers ctx) p =
      kept e (record (e.target) { exception_ctx = ctx }) e.world p
        (record { valid = p.ready.valid; reserved = p.ready.reserved }) p.unlocked
        (refl, refl, refl) refl
  Callback-IsPaused {e} (write_addrs mmu start bytes written mem h) p = record {
    ready = p.ready;
    unlocked = p.unlocked;
    not_pending = p.not_pending;
    paused = p.paused;
    recorded = p.recorded;
    suspended = p.suspended;
  }
  Callback-IsPaused {e} (write_thread_registers sys tid regs a t mem h) p =
      kept_thread e t mem p
        (write_thread_registers_frame sys tid regs e.target t e.world.machine.mem mem a h)
  Callback-IsPaused {e} (write_thread_register sys tid id val a t mem h) p =
      kept_thread e t mem p
        (write_thread_register_frame sys tid id val e.target t e.world.machine.mem mem a h)
  Callback-IsPaused {e} (add_sw addr kind b t m h) p =
      kept_sw e t m p (add_sw_frame addr kind e.target t e.world.machine m b h)
  Callback-IsPaused {e} (remove_sw addr b t m h) p =
      kept_sw e t m p (remove_sw_frame addr false e.target t e.world.machine m b h)
  Callback-IsPaused {e} (add_hw addr kind b t h) p =
      let (x, f, r, u) = add_hw_breakpoint-Ready addr kind e.target p.ready p.unlocked in
      let same : x.1 ≡ t = ap (λ y. y.1) (some_inj (sym f ∙ h)) in
      kept e t e.world p (subst Ready same r) (subst (λ y. locked y.hw_manager ≡ false) same u)
        (untouched e.target (add_hw_frame addr kind e.target t b h) (refl, refl, refl)) refl
  Callback-IsPaused {e} (remove_hw addr kind b t h) p =
      let (x, f, r, u) = remove_hw_breakpoint-Ready addr kind e.target p.ready p.unlocked in
      let same : x.1 ≡ t = ap (λ y. y.1) (some_inj (sym f ∙ h)) in
      kept e t e.world p (subst Ready same r) (subst (λ y. locked y.hw_manager ≡ false) same u)
        (untouched e.target (remove_hw_frame addr kind e.target t b h) (refl, refl, refl)) refl
  Callback-IsPaused {e} (step_program t h) p =
      let (r, u, f) = step_frame e.target t p.ready p.unlocked p.not_pending h in
      kept e t e.world p r u (untouched e.target f (refl, refl, refl)) refl
  Callback-IsPaused {e} resume_program p =
      kept e (resume e.target) e.world p
        (record { valid = p.ready.valid; reserved = p.ready.reserved }) p.unlocked
        (refl, refl, refl) refl
  Callback-IsPaused {e} (set_autostop b) p =
      kept e (record (e.target) { stop_motors_on_break = b }) e.world p
        (record { valid = p.ready.valid; reserved = p.ready.reserved }) p.unlocked
        (refl, refl, refl) refl

  -- Whatever GDB asks for, the paused program stays ready, unlocked and paused, with no interrupt
  -- pending; the recorded lock and the number of the scheduler's suspensions are as they were.
  pub Callbacks-IsPaused : {e e' : Env} → Callbacks e e' → IsPaused lock n e → IsPaused lock n e'
  Callbacks-IsPaused none_made p = p
  Callbacks-IsPaused (call cs c) p = Callback-IsPaused c (Callbacks-IsPaused cs p)

-- A program that is to go on stays so.
Callback-resuming :
    {e e' : Env}
    → Callback e e'
    → is_resuming e.target.monitor_status ≡ true
    → is_resuming e'.target.monitor_status ≡ true
unfolding resume
Callback-resuming (write_registers ctx) p = p
Callback-resuming (write_addrs mmu start bytes written mem h) p = p
Callback-resuming {e} (write_thread_registers sys tid regs a t mem h) p =
    ap (λ x. is_resuming x.monitor_status)
      (write_thread_registers_frame sys tid regs e.target t e.world.machine.mem mem a h)
    ∙ p
Callback-resuming {e} (write_thread_register sys tid id val a t mem h) p =
    ap (λ x. is_resuming x.monitor_status)
      (write_thread_register_frame sys tid id val e.target t e.world.machine.mem mem a h)
    ∙ p
Callback-resuming {e} (add_sw addr kind b t m h) p =
    ap (λ x. is_resuming x.monitor_status) (add_sw_frame addr kind e.target t e.world.machine m b h)
    ∙ p
Callback-resuming {e} (remove_sw addr b t m h) p =
    ap (λ x. is_resuming x.monitor_status)
      (remove_sw_frame addr false e.target t e.world.machine m b h)
    ∙ p
Callback-resuming {e} (add_hw addr kind b t h) p =
    ap (λ x. is_resuming x.monitor_status) (add_hw_frame addr kind e.target t b h) ∙ p
Callback-resuming {e} (remove_hw addr kind b t h) p =
    ap (λ x. is_resuming x.monitor_status) (remove_hw_frame addr kind e.target t b h) ∙ p
Callback-resuming {e} (step_program t h) p = ap is_resuming (step_status e.target t h) ∙ p
Callback-resuming resume_program p = refl
Callback-resuming (set_autostop b) p = p

pub Callbacks-resuming :
    {e e' : Env}
    → Callbacks e e'
    → is_resuming e.target.monitor_status ≡ true
    → is_resuming e'.target.monitor_status ≡ true
Callbacks-resuming none_made p = p
Callbacks-resuming (call cs c) p = Callback-resuming c (Callbacks-resuming cs p)
