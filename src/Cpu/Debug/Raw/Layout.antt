-- ===== src/Cpu/Debug/Raw/Layout.antt =====
-- The raw values of control registers stand for their fields.
use v5gdb.Base.{ℕ, ◌+◌, ◌*◌, ◌/◌, ◌%◌, ◌^◌, ◌<◌, ◌≡◌, Bool, true, false, bit, weigh, arith}
use v5gdb.Cpu.Debug.{BreakpointControl, WatchpointControl}
use v5gdb.Cpu.Debug.Raw.{breakpoint_of_raw, breakpoint_raw, watchpoint_of_raw, watchpoint_raw}

-- Every field has its width.
abbrev pub FitsBreakpoint : BreakpointControl → Type 0
FitsBreakpoint c =
    (c.address_range_mask < 32)
    × (c.breakpoint_type < 16)
    × (c.linked_breakpoint_index < 16)
    × (c.security_state_ctrl < 4)
    × (c.byte_address_select < 16)
    × (c.privileged_mode_ctrl < 4)

abbrev pub FitsWatchpoint : WatchpointControl → Type 0
FitsWatchpoint c =
    (c.watchpoint_type < 2)
    × (c.linked_breakpoint_index < 16)
    × (c.security_state_ctrl < 4)
    × (c.byte_address_select < 16)
    × (c.load_store_ctrl < 4)
    × (c.privileged_access_ctrl < 4)

weigh_small : (b : Bool) → weigh b 1 < 2
weigh_small true = omega arith
weigh_small false = omega arith

-- The lowest bit of an even number and a flag.
bit_lowest : (b : Bool) (x y : ℕ) → y ≡ 2 * x + weigh b 1 → bit y 1 ≡ b
bit_lowest true x y e = ground (arith, e)
bit_lowest false x y e = ground (arith, e)

breakpoint_of_raw-breakpoint_raw :
    (c : BreakpointControl) → FitsBreakpoint c → breakpoint_of_raw (breakpoint_raw c) ≡ c
unfolding breakpoint_of_raw breakpoint_raw
breakpoint_of_raw-breakpoint_raw c (a, b, d, e, f, g) =
    let raw = breakpoint_raw c in
    let low = weigh_small c.enabled in
    let mask : raw / 16777216 % 32 ≡ c.address_range_mask = omega (arith, a, b, d, e, f, g, low) in
    let ty : raw / 1048576 % 16 ≡ c.breakpoint_type = omega (arith, a, b, d, e, f, g, low) in
    let linked : raw / 65536 % 16 ≡ c.linked_breakpoint_index =
      omega (arith, a, b, d, e, f, g, low) in
    let security : raw / 16384 % 4 ≡ c.security_state_ctrl = omega (arith, a, b, d, e, f, g, low) in
    let bas : raw / 32 % 16 ≡ c.byte_address_select = omega (arith, a, b, d, e, f, g, low) in
    let privilege : raw / 2 % 4 ≡ c.privileged_mode_ctrl = omega (arith, a, b, d, e, f, g, low) in
    let enabled = bit_lowest c.enabled (raw / 2) raw (omega (arith, low)) in
    λ i. record {
      address_range_mask = mask i;
      breakpoint_type = ty i;
      linked_breakpoint_index = linked i;
      security_state_ctrl = security i;
      byte_address_select = bas i;
      privileged_mode_ctrl = privilege i;
      enabled = enabled i;
    }

watchpoint_of_raw-watchpoint_raw :
    (c : WatchpointControl) → FitsWatchpoint c → watchpoint_of_raw (watchpoint_raw c) ≡ c
unfolding watchpoint_of_raw watchpoint_raw
watchpoint_of_raw-watchpoint_raw c (a, b, d, e, f, g) =
    let raw = watchpoint_raw c in
    let low = weigh_small c.enabled in
    let ty : raw / 1048576 % 2 ≡ c.watchpoint_type = omega (arith, a, b, d, e, f, g, low) in
    let linked : raw / 65536 % 16 ≡ c.linked_breakpoint_index =
      omega (arith, a, b, d, e, f, g, low) in
    let security : raw / 16384 % 4 ≡ c.security_state_ctrl = omega (arith, a, b, d, e, f, g, low) in
    let bas : raw / 32 % 16 ≡ c.byte_address_select = omega (arith, a, b, d, e, f, g, low) in
    let accesses : raw / 8 % 4 ≡ c.load_store_ctrl = omega (arith, a, b, d, e, f, g, low) in
    let privilege : raw / 2 % 4 ≡ c.privileged_access_ctrl = omega (arith, a, b, d, e, f, g, low) in
    let enabled = bit_lowest c.enabled (raw / 2) raw (omega (arith, low)) in
    λ i. record {
      watchpoint_type = ty i;
      linked_breakpoint_index = linked i;
      security_state_ctrl = security i;
      byte_address_select = bas i;
      load_store_ctrl = accesses i;
      privileged_access_ctrl = privilege i;
      enabled = enabled i;
    }

-- The bits that no field of a `BreakpointControl` takes are zero.
abbrev pub IsPlain : ℕ → Type 0
IsPlain raw = (raw < 2 ^ 29) × (raw / 512 % 32 ≡ 0) × (raw / 8 % 4 ≡ 0)

weigh-bit : (raw : ℕ) → weigh (bit raw 1) 1 ≡ raw % 2
weigh-bit raw = ground arith

breakpoint_raw-breakpoint_of_raw :
    (raw : ℕ) → IsPlain raw → breakpoint_raw (breakpoint_of_raw raw) ≡ raw
unfolding breakpoint_of_raw breakpoint_raw
breakpoint_raw-breakpoint_of_raw raw (h, r1, r2) = omega (arith, h, r1, r2, weigh-bit raw)

-- The raw values of the debug registers and their fields stand for each other. The fields of a
-- `BreakpointControl` and of a `WatchpointControl`, each within its width, are read from the raw
-- value that holds them as they are, so no two of them overlap; and a raw value of a
-- `BreakpointControl` whose reserved bits are zero is given back by its fields.
pub control_layouts :
    (b : BreakpointControl) (w : WatchpointControl) (raw : ℕ)
    → FitsBreakpoint b
    → FitsWatchpoint w
    → IsPlain raw
    → (breakpoint_of_raw (breakpoint_raw b) ≡ b)
      × (watchpoint_of_raw (watchpoint_raw w) ≡ w)
      × (breakpoint_raw (breakpoint_of_raw raw) ≡ raw)
control_layouts b w raw fb fw plain = (
  breakpoint_of_raw-breakpoint_raw b fb,
  watchpoint_of_raw-watchpoint_raw w fw,
  breakpoint_raw-breakpoint_of_raw raw plain,
)
