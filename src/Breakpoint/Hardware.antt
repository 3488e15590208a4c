-- ===== src/Breakpoint/Hardware.antt =====
-- Hardware breakpoints (src/gdb_target/breakpoint/hardware.rs): the manager and its operations.
-- `none` is a panic, a failed assertion or an index past a register array; the second component of
-- a result is the manager that `&mut self` leaves. The barriers have no counterpart.
mod Loops
pub mod Armed
pub mod Slots
pub mod Reserve
pub mod Reset
pub mod Board
use v5gdb.Base.{
  ◌+◌, ℕ, zero, suc, ◌-◌, ◌%◌, Bool, true, false, not, ◌&&◌, Option, none, some, ◌>>=◌, update,
  or_else, count, align_down, ◌==◌, ltb, if◌then◌else◌,
}
use v5gdb.Arch.{ArmBreakpointKind, kind_arm32}
use v5gdb.Cpu.Debug.{
  DebugLogic, DebugId, breakpoint_disabled, watchpoint_disabled, BreakpointControl, BreakpointType,
  DebugEventReason, debug_unlock_magic, write_lock_access, unlinked_instr_address_match,
  unlinked_instr_address_mismatch, type_of_raw, raw_of_type, reason_of_raw,
  user_system_supervisor_only, raw_of_privilege, security_all, raw_of_security,
}
use v5gdb.Breakpoint.{already_exists, no_space, not_aligned_correctly, Result, ok, err}

pub record HardwareCapabilities : Type 0 where
  pub num_breakpoints : ℕ
  pub num_watchpoints : ℕ

pub record HwBreakpointManager : Type 0 where
  pub capabilities : HardwareCapabilities
  pub mmio : DebugLogic
  pub used_breakpoints : ℕ → Bool

pub data Specificity : Type 0 where
  match mismatch : Specificity

-- `From<Specificity> for BreakpointType`
unfoldable pub type_of : Specificity → BreakpointType
type_of match = unlinked_instr_address_match
type_of mismatch = unlinked_instr_address_mismatch

-- An access to entry `idx` of a register array of 16.
abbrev pub checked {ℓ} : {A : Type ℓ} → ℕ → A → Option A
checked idx a = if ltb idx 16 then some a else none

abbrev pub locked : HwBreakpointManager → Bool
locked m = m.mmio.software_lock_status

-- `set_locked`
unfoldable pub set_locked : Bool → HwBreakpointManager → HwBreakpointManager
unfolding write_lock_access
set_locked lock m = record m {
  mmio = write_lock_access (if lock then 0 else debug_unlock_magic) m.mmio;
}

-- `split_addr`: the word that holds the address, and the bytes of it that the instruction takes.
unfoldable pub split_addr : ℕ → ArmBreakpointKind → Result (ℕ × ℕ)
split_addr addr kind_arm32 =
    if addr % 4 == 0 then ok (align_down addr 4, 15) else err not_aligned_correctly
split_addr addr _ =
    if addr % 2 == 0
    then (if addr % 4 == 0 then ok (align_down addr 4, 3) else ok (align_down addr 4, 12))
    else err not_aligned_correctly

-- `existing.breakpoint_type() == Ok(ty)`
unfoldable pub has_type : ℕ → BreakpointType → Bool
unfolding type_of_raw raw_of_type
has_type raw ty = elim (type_of_raw raw) [ none ↦ false | some t ↦ raw_of_type t == raw_of_type ty ]

-- The test of both loops: slot `idx` is enabled and configured for this word, bytes and type.
unfoldable pub is_armed_at : HwBreakpointManager → ℕ → ℕ → BreakpointType → ℕ → Bool
is_armed_at m word bas ty idx =
    ctrl.enabled
    && has_type ctrl.breakpoint_type ty
    && (m.mmio.breakpoint_value idx == word && ctrl.byte_address_select == bas)
  where
    ctrl : BreakpointControl
    ctrl = m.mmio.breakpoint_ctrl idx

-- `!existing_bkpt.enabled() && !self.used_breakpoints[idx]`
unfoldable pub is_free_at : HwBreakpointManager → ℕ → Bool
is_free_at m idx = not (m.mmio.breakpoint_ctrl idx).enabled && not (m.used_breakpoints idx)

-- What the search of `add_breakpoint_at` finds.
pub data Search : Type 0 where
  duplicate : Search
  vacant : Option ℕ → Search

-- The loop of `add_breakpoint_at`: `rounds` slots are left, from `idx` on.
unfoldable pub search_slots :
    HwBreakpointManager → ℕ → ℕ → BreakpointType → ℕ → ℕ → Option ℕ → Option Search
search_slots m word bas ty zero idx next = some (vacant next)
search_slots m word bas ty (suc rounds) idx next = do
  _ ← checked idx (m.mmio.breakpoint_ctrl idx)
  let next' = or_else next (if is_free_at m idx then some idx else none)
  let rest = search_slots m word bas ty rounds (suc idx) next'
  if is_armed_at m word bas ty idx then some duplicate else rest

-- The control register that `add_breakpoint_at` leaves.
abbrev pub armed_ctrl : ℕ → BreakpointType → BreakpointControl
armed_ctrl bas ty = record {
  address_range_mask = 0;
  breakpoint_type = raw_of_type ty;
  linked_breakpoint_index = 0;
  security_state_ctrl = raw_of_security security_all;
  byte_address_select = bas;
  privileged_mode_ctrl = raw_of_privilege user_system_supervisor_only;
  enabled = true;
}

-- The writes of `add_breakpoint_at` once a slot is found.
unfoldable pub arm_slot :
    HwBreakpointManager
    → ℕ
    → ℕ
    → BreakpointType
    → ℕ
    → Option (Result (Unit {0}) × HwBreakpointManager)
arm_slot m word bas ty idx = checked idx (
  ok tt,
  record m {
    mmio = record d {
      breakpoint_value = update d.breakpoint_value idx word;
      breakpoint_ctrl = update d.breakpoint_ctrl idx (armed_ctrl bas ty);
    };
    used_breakpoints = update m.used_breakpoints idx true;
  },
)
  where
    d : DebugLogic
    d = m.mmio

-- `add_breakpoint_at` after the address is split.
unfoldable pub add_at :
    HwBreakpointManager → ℕ → ℕ → BreakpointType → Option (Result (Unit {0}) × HwBreakpointManager)
unfolding search_slots arm_slot
add_at m word bas ty = elim (search_slots m word bas ty m.capabilities.num_breakpoints 0 none) [
  | none ↦ none
  | some duplicate ↦ some (err already_exists, m)
  | some (vacant none) ↦ some (err no_space, m)
  | some (vacant (some idx)) ↦ arm_slot m word bas ty idx
]

unfoldable pub add_breakpoint_at :
    HwBreakpointManager
    → ℕ
    → Specificity
    → ArmBreakpointKind
    → Option (Result (Unit {0}) × HwBreakpointManager)
unfolding add_at split_addr
add_breakpoint_at m addr specificity kind = if locked m then none else elim (split_addr addr kind) [
  | err e ↦ some (err e, m)
  | ok (word, bas) ↦ add_at m word bas (type_of specificity)
]

-- Slot `idx` with its breakpoint disabled and no longer in use.
abbrev pub disarm_slot : HwBreakpointManager → ℕ → HwBreakpointManager
disarm_slot m idx = record m {
  mmio = record d { breakpoint_ctrl = update d.breakpoint_ctrl idx (record c { enabled = false }) };
  used_breakpoints = update m.used_breakpoints idx false;
}
  where
    d : DebugLogic
    d = m.mmio

    c : BreakpointControl
    c = m.mmio.breakpoint_ctrl idx

-- The loop of `remove_breakpoint_at`; the Boolean is `anything_removed`.
unfoldable pub remove_slots :
    ℕ
    → ℕ
    → BreakpointType
    → ℕ
    → ℕ
    → Bool
    → HwBreakpointManager
    → Option (Bool × HwBreakpointManager)
remove_slots word bas ty zero idx removed m = some (removed, m)
remove_slots word bas ty (suc rounds) idx removed m = do
  _ ← checked idx (m.mmio.breakpoint_ctrl idx)
  let hit = is_armed_at m word bas ty idx
  remove_slots word bas ty rounds (suc idx) (if hit then true else removed)
      (if hit then disarm_slot m idx else m)

unfoldable pub remove_breakpoint_at :
    HwBreakpointManager → ℕ → Specificity → ArmBreakpointKind → Option (Bool × HwBreakpointManager)
unfolding split_addr
remove_breakpoint_at m addr specificity kind =
    if locked m then none else elim (split_addr addr kind) [
      | err e ↦ some (false, m)
      | ok (word, bas) ↦
          remove_slots word bas (type_of specificity) m.capabilities.num_breakpoints 0 false m
    ]

-- `breakpoints_available`. The subtraction of `u8` would panic below 0.
unfoldable pub breakpoints_available : HwBreakpointManager → ℕ
breakpoints_available m = m.capabilities.num_breakpoints - count m.used_breakpoints 16 0

unfoldable pub last_break_reason : HwBreakpointManager → Option DebugEventReason
last_break_reason m = reason_of_raw m.mmio.status_control_ext.method_of_entry

-- `RESET_SENTINEL`
abbrev reset_sentinel : ℕ
reset_sentinel = 0xf0f0f0f0

-- The first loop of `reset`: slot `idx` on, for `rounds` breakpoints.
unfoldable pub reset_breakpoints : ℕ → ℕ → DebugLogic → Option DebugLogic
reset_breakpoints zero idx d = some d
reset_breakpoints (suc rounds) idx d = do
  _ ← checked idx d
  reset_breakpoints rounds (suc idx) (record d {
    breakpoint_ctrl = update d.breakpoint_ctrl idx breakpoint_disabled;
    breakpoint_value = update d.breakpoint_value idx reset_sentinel;
  })

-- Its second loop, for the watchpoints.
unfoldable pub reset_watchpoints : ℕ → ℕ → DebugLogic → Option DebugLogic
reset_watchpoints zero idx d = some d
reset_watchpoints (suc rounds) idx d = do
  _ ← checked idx d
  reset_watchpoints rounds (suc idx) (record d {
    watchpoint_ctrl = update d.watchpoint_ctrl idx watchpoint_disabled;
    watchpoint_value = update d.watchpoint_value idx reset_sentinel;
  })

-- `reset`: everything disabled and unused, and debug events routed to exceptions.
unfoldable pub reset : HwBreakpointManager → Option HwBreakpointManager
unfolding reset_breakpoints reset_watchpoints
reset m = if locked m then none else body
  where
    body : Option HwBreakpointManager
    body = do
      d ← reset_breakpoints m.capabilities.num_breakpoints 0 m.mmio
      d' ← reset_watchpoints m.capabilities.num_watchpoints 0 d
      some (record m {
        mmio = record d' {
          status_control_ext = record (d'.status_control_ext) {
            halting_debug_mode = false;
            monitor_debug_mode = true;
          };
        };
        used_breakpoints = λ _. false;
      })

-- The part of `setup` after the debug hardware is enabled and its registers are found: the counts
-- of `DebugID` are one less than the numbers of slots.
unfoldable pub setup : DebugId → DebugLogic → Option HwBreakpointManager
unfolding set_locked reset
setup id d = do
  m ← reset (
      set_locked false (record {
        capabilities = record { num_breakpoints = id.brps + 1; num_watchpoints = id.wrps + 1 };
        mmio = d;
        used_breakpoints = λ _. false;
      }))
  some (set_locked true m)
