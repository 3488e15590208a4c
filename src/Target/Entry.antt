-- ===== src/Target/Entry.antt =====
-- Debug events (src/gdb_target/mod.rs): entering and leaving the debugger, single steps and
-- asynchronous interrupts. `none` is a panic.
use v5gdb.Base.{
  ℕ, ◌+◌, ◌%◌, Bool, true, false, Option, none, some, ◌>>=◌, leb, if◌then◌else◌, u32_mod,
}
use v5gdb.Arch.{ArmBreakpointKind, kind_thumb16, kind_arm32}
use v5gdb.Exceptions.{DebugEventContext, thumb}
use v5gdb.Cpu.Instruction
use v5gdb.Cpu.Instruction.{Instruction}
use v5gdb.Cpu.Cache.{Machine}
use v5gdb.Cpu.Debug.{DebugEventReason}
use v5gdb.Breakpoint.{Result, ok, err}
use v5gdb.Breakpoint.Hardware.{
  HwBreakpointManager, mismatch, match, locked, set_locked, add_breakpoint_at, remove_breakpoint_at,
  breakpoints_available, last_break_reason,
}
use v5gdb.Target.{
  V5Target, World, StopReason, hardware_break, tracked_software_break, untracked_software_break,
  interrupt, other, SingleStepRequest, active,
}
use v5gdb.Target.Breaks.{set_breakpoints_ignored, query_sw_breakpoint}

-- `ASYNC_HALT_SENTINEL`
abbrev pub async_halt_sentinel : ℕ
async_halt_sentinel = 0xfffffffc

abbrev pub is_none {ℓ} : {A : Type ℓ} → Option A → Bool
is_none none = true
is_none (some _) = false

-- `classify_stop`, on what the hardware reports
unfoldable pub classify : V5Target → Option DebugEventReason → StopReason
classify t (some DebugEventReason.breakpoint) =
    if t.interrupt_pending then interrupt else hardware_break
classify t (some DebugEventReason.bkpt_instr) =
    elim (query_sw_breakpoint t.exception_ctx.program_counter t) [
      | some id ↦ tracked_software_break id
      | none ↦ untracked_software_break
    ]
classify t _ = other

unfoldable pub classify_stop : V5Target → V5Target
unfolding classify
classify_stop t = record t { stop_reason = classify t (last_break_reason t.hw_manager) }

-- `finalize_single_step`
unfoldable pub finalize_single_step : V5Target → Option V5Target
finalize_single_step t = elim t.single_step_request [
  | none ↦ some t
  | some r ↦ do
    (_, m) ← remove_breakpoint_at t.hw_manager r.target_addr mismatch r.kind
    some (record t { hw_manager = m; single_step_request = none })
]

-- `finalize_interrupt`
unfoldable pub finalize_interrupt : V5Target → Option V5Target
finalize_interrupt t =
    if t.interrupt_pending
    then remove_breakpoint_at t.hw_manager async_halt_sentinel mismatch kind_arm32 >>= cleared
    else some t
  where
    cleared : Bool × HwBreakpointManager → Option V5Target
    cleared (_, m) = some (record t { hw_manager = m; interrupt_pending = false })

-- `fixup_manual_bkpt`: the program counter skips a hard-coded `bkpt`.
unfoldable pub fixup_manual_bkpt : V5Target → Machine → Option V5Target
fixup_manual_bkpt t s = elim t.stop_reason [
  | untracked_software_break ↦ do
    instr ← Instruction.read s.mem t.exception_ctx.program_counter (thumb t.exception_ctx)
    some (record t {
      exception_ctx = record (t.exception_ctx) {
        program_counter = (t.exception_ctx.program_counter + Instruction.size instr) % u32_mod;
      };
    })
  | _ ↦ some t
]

-- `enter_breakpoint`; the stop reason that it returns is the field of the target.
unfoldable pub enter_breakpoint : DebugEventContext → V5Target → World → Option (V5Target × World)
enter_breakpoint ctx t w = do
  let (t1, s) = set_breakpoints_ignored true t w.machine
  let w' : World = record {
    machine = s;
    suspensions = if is_none t.single_step_request then w.suspensions + 1 else w.suspensions;
  }
  t2 ← finalize_single_step (
      classify_stop (record t1 {
        original_hw_lock_state = locked t1.hw_manager;
        hw_manager = set_locked false t1.hw_manager;
        exception_ctx = ctx;
        monitor_status = active;
      }))
  t3 ← finalize_interrupt t2
  t4 ← fixup_manual_bkpt t3 s
  some (t4, w')

-- `leave_breakpoint`: the context to resume, whether the scheduler is to be resumed, and the state.
unfoldable pub leave_breakpoint : V5Target → World → DebugEventContext × Bool × V5Target × World
leave_breakpoint t w =
    let t1 = record t { hw_manager = set_locked t.original_hw_lock_state t.hw_manager } in
    let (t2, s) = set_breakpoints_ignored false t1 w.machine in
    (t.exception_ctx, is_none t.single_step_request, t2, record w { machine = s })

-- The instruction set that the program is in.
abbrev pub step_kind : V5Target → ArmBreakpointKind
step_kind t = if thumb t.exception_ctx then kind_thumb16 else kind_arm32

-- `request_single_step`
unfoldable pub request_single_step : V5Target → Option (Result (Unit {0}) × V5Target)
request_single_step t = elim t.single_step_request [
  | some _ ↦ some (ok tt, t)
  | none ↦ do
    (r, m) ← add_breakpoint_at t.hw_manager t.exception_ctx.program_counter mismatch (step_kind t)
    some (armed r m)
]
  where
    armed : Result (Unit {0}) → HwBreakpointManager → Result (Unit {0}) × V5Target
    armed (err e) m = (err e, record t { hw_manager = m })
    armed (ok _) m = (
      ok tt,
      record t {
        hw_manager = m;
        single_step_request =
            some (record { target_addr = t.exception_ctx.program_counter; kind = step_kind t });
      },
    )

-- The slot of a pending single step is given back before an interrupt takes it.
unfoldable pub reuse_step :
    Option SingleStepRequest → HwBreakpointManager → Option HwBreakpointManager
reuse_step none m = some m
reuse_step (some r) m = do (_, m') ← remove_breakpoint_at m r.target_addr mismatch r.kind; some m'

-- `request_interrupt`; the `unwrap` of a failed insertion panics.
unfoldable pub request_interrupt : V5Target → Option V5Target
unfolding reuse_step
request_interrupt t = if t.interrupt_pending then some t else armed
  where
    finish : Result (Unit {0}) × HwBreakpointManager → Option V5Target
    finish (err e, m) = none
    finish (ok _, m) =
        some
          (record t { hw_manager = set_locked (locked t.hw_manager) m; interrupt_pending = true })

    armed : Option V5Target
    armed = do
      m ← reuse_step t.single_step_request (set_locked false t.hw_manager)
      x ← add_breakpoint_at m async_halt_sentinel mismatch kind_arm32
      finish x

-- The `HwBreakpoint` interface to GDB: the last free slot is kept for single steps.
unfoldable pub add_hw_breakpoint : ℕ → ArmBreakpointKind → V5Target → Option (Bool × V5Target)
add_hw_breakpoint addr kind t =
    if leb available 1
    then some (false, t)
    else add_breakpoint_at t.hw_manager addr match kind >>= added
  where
    available : ℕ
    available = breakpoints_available t.hw_manager

    added : Result (Unit {0}) × HwBreakpointManager → Option (Bool × V5Target)
    added (ok _, m) = some (true, record t { hw_manager = m })
    added (err e, m) = some (false, record t { hw_manager = m })

unfoldable pub remove_hw_breakpoint : ℕ → ArmBreakpointKind → V5Target → Option (Bool × V5Target)
remove_hw_breakpoint addr kind t = do
  (b, m) ← remove_breakpoint_at t.hw_manager addr match kind
  some (b, record t { hw_manager = m })
