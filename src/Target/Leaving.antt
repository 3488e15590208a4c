-- ===== src/Target/Leaving.antt =====
-- The program as it goes on after a debug event (`leave_breakpoint` of src/gdb_target/mod.rs).
use v5gdb.Base.{ℕ, ◌+◌, ◌-◌, ◌≡◌, false, if◌then◌else◌}
use v5gdb.Breakpoint.Hardware.{locked}
use v5gdb.Target.{V5Target, World}
use v5gdb.Target.Breaks.{set_breakpoints_ignored}
use v5gdb.Target.Breaks.View.{view, Apart, Held}
use v5gdb.Target.Breaks.Live.{EnabledHold, AllLive, enable_slots-AllLive}
use v5gdb.Target.Breaks.Toggle.{set_breakpoints_ignored-view}
use v5gdb.Target.Entry.{leave_breakpoint}
use v5gdb.Target.Events.{held, leave_breakpoint-held}
use v5gdb.Target.Stepping.{Ready}

-- Let a ready target be left whose tracked instructions share no byte, where memory holds the
-- instruction of every disabled slot and the `bkpt` of every enabled one, and the scheduler is
-- suspended once more than by the user. After `leave_breakpoint` every slot is enabled and memory
-- holds its `bkpt`, the program's memory under the breakpoints is as it was, and the flag that marks
-- breakpoints as ignored is clear. After the resumption that the result asks for, the scheduler is
-- suspended as often as by the user, or once more if a single step was requested. The lock is what
-- was recorded, the context that the program goes on with is the debugger's, and the target is ready.
pub leave_breakpoint_returns :
    (t : V5Target) (w : World) (base : ℕ)
    → Ready t
    → Apart t.breaks
    → Held t.breaks w.machine.mem
    → EnabledHold t.breaks w.machine.mem
    → w.suspensions ≡ base + 1
    → let (ctx, resume, t', w') = leave_breakpoint t w in
      AllLive t'.breaks w'.machine.mem
      × ((a : ℕ) → view t'.breaks w'.machine.mem a ≡ view t.breaks w.machine.mem a)
      × (t'.breaks_paused ≡ false)
      × (w'.suspensions - (if resume then 1 else 0) ≡ base + held t')
      × (locked t'.hw_manager ≡ t.original_hw_lock_state)
      × (ctx ≡ t.exception_ctx)
      × Ready t'
unfolding leave_breakpoint set_breakpoints_ignored
leave_breakpoint_returns t w base r apart disabled enabled h =
    let (suspended, lock, ctx, running, ready) = leave_breakpoint-held t w base r h in
    let (same, _, _, _) = set_breakpoints_ignored-view false t w.machine apart disabled in
    (
      enable_slots-AllLive t.breaks w.machine apart enabled,
      same,
      running,
      suspended,
      lock,
      ctx,
      ready,
    )
