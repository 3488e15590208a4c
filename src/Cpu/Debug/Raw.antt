-- ===== src/Cpu/Debug/Raw.antt =====
-- The debug registers of the processor as raw values (src/cpu/debug.rs). A field of several bits is a
-- quotient and a remainder, and a flag is a bit by its weight.
pub mod Layout
use v5gdb.Base.{
  ℕ, ◌+◌, ◌*◌, ◌/◌, ◌%◌, Bool, true, false, bit, with_bit, weigh, ◌==◌, if◌then◌else◌, u32_mod,
}
use v5gdb.Cpu.Debug.{DebugId, BreakpointControl, WatchpointControl}

-- `DebugID`
abbrev pub debug_id_of_raw : ℕ → DebugId
debug_id_of_raw raw = record { wrps = raw / 268435456 % 16; brps = raw / 16777216 % 16 }

-- `valid() == Ok(DebugValid::Valid)` of `DebugROMAddress` and of `DebugSelfAddressOffset`
abbrev pub is_valid : ℕ → Bool
is_valid raw = raw % 4 == 3

-- `DebugROMAddress::value`
abbrev pub rom_address : ℕ → ℕ
rom_address raw = raw / 4096 % 1048576 * 4096

-- `DebugSelfAddressOffset::value`, as the bits of an `isize`
abbrev pub self_address_offset : ℕ → ℕ
self_address_offset raw = raw / 4096 % 1048576 * 4096

-- `rom_base.value().wrapping_add_signed(self_address_offset.value())`
abbrev pub mmio_base : ℕ → ℕ → ℕ
mmio_base rom offset = (rom_address rom + self_address_offset offset) % u32_mod

-- `SecureDebugEnable::with_secure_user_invasive_debug`, bit 0
abbrev pub with_secure_user_invasive_debug : ℕ → Bool → ℕ
with_secure_user_invasive_debug raw b = with_bit raw 1 b

-- The fields of a `BreakpointControl`: bits 24..=28, 20..=23, 16..=19, 14..=15, 5..=8, 1..=2 and 0
unfoldable pub breakpoint_of_raw : ℕ → BreakpointControl
breakpoint_of_raw raw = record {
  address_range_mask = raw / 16777216 % 32;
  breakpoint_type = raw / 1048576 % 16;
  linked_breakpoint_index = raw / 65536 % 16;
  security_state_ctrl = raw / 16384 % 4;
  byte_address_select = raw / 32 % 16;
  privileged_mode_ctrl = raw / 2 % 4;
  enabled = bit raw 1;
}

-- The raw value that its setters leave, from the value 0.
unfoldable pub breakpoint_raw : BreakpointControl → ℕ
breakpoint_raw c =
    c.address_range_mask * 16777216
    + c.breakpoint_type * 1048576
    + c.linked_breakpoint_index * 65536
    + c.security_state_ctrl * 16384
    + c.byte_address_select * 32
    + c.privileged_mode_ctrl * 2
    + weigh c.enabled 1

-- The fields of a `WatchpointControl`: bits 20, 16..=19, 14..=15, 5..=8, 3..=4, 1..=2 and 0
unfoldable pub watchpoint_of_raw : ℕ → WatchpointControl
watchpoint_of_raw raw = record {
  watchpoint_type = raw / 1048576 % 2;
  linked_breakpoint_index = raw / 65536 % 16;
  security_state_ctrl = raw / 16384 % 4;
  byte_address_select = raw / 32 % 16;
  load_store_ctrl = raw / 8 % 4;
  privileged_access_ctrl = raw / 2 % 4;
  enabled = bit raw 1;
}

unfoldable pub watchpoint_raw : WatchpointControl → ℕ
watchpoint_raw c =
    c.watchpoint_type * 1048576
    + c.linked_breakpoint_index * 65536
    + c.security_state_ctrl * 16384
    + c.byte_address_select * 32
    + c.load_store_ctrl * 8
    + c.privileged_access_ctrl * 2
    + weigh c.enabled 1
