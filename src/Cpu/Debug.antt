-- ===== src/Cpu/Debug.antt =====
-- The debug registers (src/cpu/debug.rs). A bit field struct is a record of its fields. A field
-- whose enum does not cover every bit pattern holds the raw bits beside a decoding function, whose
-- `none` is the `Err` of the field's getter.
pub mod Raw
use v5gdb.Base.{ℕ, ◌/◌, ◌%◌, Bool, true, false, Option, none, some, ◌==◌, if◌then◌else◌}

-- `DebugRegister` by its number; the CP14 arguments (CRn, CRm, opc2) are bits 7..=9, 0..=3, 4..=6.
unfoldable pub get_cp14_encoding : ℕ → ℕ × ℕ × ℕ
get_cp14_encoding regnum = (regnum / 128 % 8, regnum % 16, regnum / 16 % 8)

pub record DebugId : Type 0 where
  pub wrps : ℕ
  pub brps : ℕ

pub data DebugEventReason : Type 0 where
  halt_req breakpoint async_watchpoint bkpt_instr : DebugEventReason
  ext_debug_req vector_catch os_unlock sync_watchpoint : DebugEventReason

unfoldable pub reason_of_raw : ℕ → Option DebugEventReason
reason_of_raw raw =
    if raw == 0
    then some halt_req
    else if raw == 1
    then some breakpoint
    else if raw == 2
    then some async_watchpoint
    else if raw == 3
    then some bkpt_instr
    else if raw == 4
    then some ext_debug_req
    else if raw == 5
    then some vector_catch
    else if raw == 8
    then some os_unlock
    else if raw == 10
    then some sync_watchpoint
    else none

-- `method_of_entry` is the raw field.
pub record DebugStatusControl : Type 0 where
  pub secure_pl1_invasive_debug_disabled : Bool
  pub monitor_debug_mode : Bool
  pub halting_debug_mode : Bool
  pub method_of_entry : ℕ

pub data BreakpointType : Type 0 where
  unlinked_instr_address_match linked_instr_address_match : BreakpointType
  unlinked_context_id_match linked_context_id_match : BreakpointType
  unlinked_instr_address_mismatch linked_instr_address_mismatch : BreakpointType

unfoldable pub raw_of_type : BreakpointType → ℕ
raw_of_type unlinked_instr_address_match = 0
raw_of_type linked_instr_address_match = 1
raw_of_type unlinked_context_id_match = 2
raw_of_type linked_context_id_match = 3
raw_of_type unlinked_instr_address_mismatch = 4
raw_of_type linked_instr_address_mismatch = 5

unfoldable pub type_of_raw : ℕ → Option BreakpointType
type_of_raw raw =
    if raw == 0
    then some unlinked_instr_address_match
    else if raw == 1
    then some linked_instr_address_match
    else if raw == 2
    then some unlinked_context_id_match
    else if raw == 3
    then some linked_context_id_match
    else if raw == 4
    then some unlinked_instr_address_mismatch
    else if raw == 5
    then some linked_instr_address_mismatch
    else none

pub data SecurityFilter : Type 0 where
  security_all not_secure_only secure_only : SecurityFilter

unfoldable pub raw_of_security : SecurityFilter → ℕ
raw_of_security security_all = 0
raw_of_security not_secure_only = 1
raw_of_security secure_only = 2

pub data PrivilegeModeFilter : Type 0 where
  user_system_supervisor_only level1_only user_only privilege_all : PrivilegeModeFilter

unfoldable pub raw_of_privilege : PrivilegeModeFilter → ℕ
raw_of_privilege user_system_supervisor_only = 0
raw_of_privilege level1_only = 1
raw_of_privilege user_only = 2
raw_of_privilege privilege_all = 3

-- Every field is its raw bits, but for `enabled`.
pub record BreakpointControl : Type 0 where
  pub address_range_mask : ℕ
  pub breakpoint_type : ℕ
  pub linked_breakpoint_index : ℕ
  pub security_state_ctrl : ℕ
  pub byte_address_select : ℕ
  pub privileged_mode_ctrl : ℕ
  pub enabled : Bool

-- `BreakpointControl::DISABLED`: the raw value 0
abbrev pub breakpoint_disabled : BreakpointControl
breakpoint_disabled = record {
  address_range_mask = 0;
  breakpoint_type = 0;
  linked_breakpoint_index = 0;
  security_state_ctrl = 0;
  byte_address_select = 0;
  privileged_mode_ctrl = 0;
  enabled = false;
}

pub record WatchpointControl : Type 0 where
  pub watchpoint_type : ℕ
  pub linked_breakpoint_index : ℕ
  pub security_state_ctrl : ℕ
  pub byte_address_select : ℕ
  pub load_store_ctrl : ℕ
  pub privileged_access_ctrl : ℕ
  pub enabled : Bool

-- `WatchpointControl::DISABLED`
abbrev pub watchpoint_disabled : WatchpointControl
watchpoint_disabled = record {
  watchpoint_type = 0;
  linked_breakpoint_index = 0;
  security_state_ctrl = 0;
  byte_address_select = 0;
  load_store_ctrl = 0;
  privileged_access_ctrl = 0;
  enabled = false;
}

-- `DEBUG_UNLOCK_MAGIC`
abbrev pub debug_unlock_magic : ℕ
debug_unlock_magic = 0xc5acce55

-- The registers of `DebugLogic` that the program accesses. An array of 16 registers is a function
-- of the index, which its accessors check; `software_lock_status` is the field of `lock_status`.
pub record DebugLogic : Type 0 where
  pub status_control_ext : DebugStatusControl
  pub breakpoint_value : ℕ → ℕ
  pub breakpoint_ctrl : ℕ → BreakpointControl
  pub watchpoint_value : ℕ → ℕ
  pub watchpoint_ctrl : ℕ → WatchpointControl
  pub software_lock_status : Bool

-- `write_lock_access`: the magic value turns the software lock off, any other turns it on.
unfoldable pub write_lock_access : ℕ → DebugLogic → DebugLogic
write_lock_access v d = record d {
  software_lock_status = if v == debug_unlock_magic then false else true;
}
