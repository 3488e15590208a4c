-- ===== src/Breakpoint/Hardware/Reset.antt =====
-- The manager that `setup` gives.
use v5gdb.Base.{
  sym, ap, ℕ, zero, suc, ◌+◌, ◌≤◌, ◌<◌, ◌≡◌, refl, ◌∙◌, true, false, some, update, any, count,
  if◌then◌else◌, arith, within,
}
use v5gdb.Cpu.Debug.{DebugLogic, DebugId, breakpoint_disabled, watchpoint_disabled}
use v5gdb.Breakpoint.Hardware.{
  HwBreakpointManager, locked, set_locked, reset_breakpoints, reset_watchpoints, reset, setup,
  reset_sentinel, is_armed_at, breakpoints_available,
}
use v5gdb.Breakpoint.Hardware.Armed.{Place, armed}
use v5gdb.Breakpoint.Hardware.Slots.{IsValid, is_at}

-- The loop over breakpoints does not panic within 16 slots, and disables its slots.
reset_breakpoints_lem :
    (rounds idx : ℕ) (d : DebugLogic)
    → idx + rounds ≤ 16
    → (d' : DebugLogic) × (reset_breakpoints rounds idx d ≡ some d')
      × ((j : ℕ)
          → d'.breakpoint_ctrl j
            ≡ (if within idx rounds j then breakpoint_disabled else d.breakpoint_ctrl j))
      × (d'.software_lock_status ≡ d.software_lock_status)
unfolding reset_breakpoints
reset_breakpoints_lem zero idx d h = (d, refl, λ j. ground arith, refl)
reset_breakpoints_lem (suc rounds) idx d h =
    let (d', e, ctrls, lock) =
      reset_breakpoints_lem rounds (suc idx)
        (record d {
          breakpoint_ctrl = update d.breakpoint_ctrl idx breakpoint_disabled;
          breakpoint_value = update d.breakpoint_value idx reset_sentinel;
        })
        (omega arith) in
    (d', ground (arith, e), λ j. ground (arith, ctrls j), lock)

reset_watchpoints_lem :
    (rounds idx : ℕ) (d : DebugLogic)
    → idx + rounds ≤ 16
    → (d' : DebugLogic) × (reset_watchpoints rounds idx d ≡ some d')
      × (d'.breakpoint_ctrl ≡ d.breakpoint_ctrl)
      × (d'.software_lock_status ≡ d.software_lock_status)
unfolding reset_watchpoints
reset_watchpoints_lem zero idx d h = (d, refl, refl, refl)
reset_watchpoints_lem (suc rounds) idx d h =
    let (d', e, ctrls, lock) =
      reset_watchpoints_lem rounds (suc idx)
        (record d {
          watchpoint_ctrl = update d.watchpoint_ctrl idx watchpoint_disabled;
          watchpoint_value = update d.watchpoint_value idx reset_sentinel;
        })
        (omega arith) in
    (d', ground (arith, e), ctrls, lock)

-- A manager none of whose slots is enabled or in use.
pub record IsIdle (m : HwBreakpointManager) : Type 0 where
  pub none_enabled :
      (j : ℕ) → j < m.capabilities.num_breakpoints → (m.mmio.breakpoint_ctrl j).enabled ≡ false
  pub none_used : (j : ℕ) → m.used_breakpoints j ≡ false

module _ (m : HwBreakpointManager) (idle : IsIdle m) where
  idle-unarmed : (p : Place) (j : ℕ) → j < m.capabilities.num_breakpoints → is_at m p j ≡ false
  unfolding is_armed_at
  idle-unarmed p j h = ground (arith, idle.none_enabled j h)

  pub IsIdle-IsValid :
      1 ≤ m.capabilities.num_breakpoints → m.capabilities.num_breakpoints ≤ 16 → IsValid m
  IsIdle-IsValid one small = record {
    positive = one;
    small = small;
    used_enabled = λ j h. idle.none_used j ∙ sym (idle.none_enabled j h);
    beyond = λ j h. idle.none_used j;
    distinct = λ p i j hi hj ti tj. absurd (ground (arith, idle-unarmed p i hi, ti));
  }

  pub IsIdle-armed : (p : Place) → armed m p ≡ false
  unfolding armed any
  IsIdle-armed p = none_of m.capabilities.num_breakpoints 0 (omega arith)
    where
      none_of :
          (k idx : ℕ) → idx + k ≤ m.capabilities.num_breakpoints → any (is_at m p) k idx ≡ false
      none_of zero idx h = refl
      none_of (suc k) idx h =
          ground (arith, idle-unarmed p idx (omega arith), none_of k (suc idx) (omega arith))

  pub IsIdle-available : breakpoints_available m ≡ m.capabilities.num_breakpoints
  unfolding breakpoints_available count
  IsIdle-available = omega (arith, unused 16 0)
    where
      unused : (k idx : ℕ) → count m.used_breakpoints k idx ≡ 0
      unused zero idx = refl
      unused (suc k) idx = ground (arith, idle.none_used idx, unused k (suc idx))

-- `setup` does not panic on a processor with at most 16 breakpoints and watchpoints, whatever its
-- debug registers hold. The manager that it gives has the processor's number of breakpoints, none of
-- them enabled or in use, and is locked.
pub setup-IsIdle :
    (id : DebugId) (d : DebugLogic)
    → id.brps < 16
    → id.wrps < 16
    → (m : HwBreakpointManager) × (setup id d ≡ some m)
      × IsIdle m
      × (m.capabilities.num_breakpoints ≡ id.brps + 1)
      × (locked m ≡ true)
unfolding setup reset set_locked
setup-IsIdle id d b w =
    let (d1, e1, ctrls, lock1) =
      reset_breakpoints_lem (id.brps + 1) 0 (record d { software_lock_status = false })
        (omega arith) in
    let (d2, e2, same_ctrls, lock2) = reset_watchpoints_lem (id.wrps + 1) 0 d1 (omega arith) in
    (
      record {
        capabilities = record { num_breakpoints = id.brps + 1; num_watchpoints = id.wrps + 1 };
        mmio = record d2 {
          status_control_ext = record (d2.status_control_ext) {
            halting_debug_mode = false;
            monitor_debug_mode = true;
          };
          software_lock_status = true;
        };
        used_breakpoints = λ _. false;
      },
      rw e1 (rw e2 refl),
      record {
        none_enabled = λ j h. ap (λ f. (f j).enabled) same_ctrls ∙ ground (arith, ctrls j);
        none_used = λ j. refl;
      },
      refl,
      refl,
    )
