-- ===== src/Target/Breaks.antt =====
-- Tracked software breakpoints (src/gdb_target/breakpoint/software.rs and mod.rs, the methods of
-- `V5Target`). `none` is the panic of an instruction read at an unaligned or null address.
pub mod View
pub mod Live
pub mod Toggle
mod Find
pub mod Register
pub mod Remove
pub mod Coherent
use v5gdb.Base.{
  ℕ, zero, suc, ◌+◌, ◌<◌, Bool, true, false, not, ◌&&◌, Option, none, some, List, [], ◌∷◌, ◌>>=◌,
  or_else, set, ltb, ◌==◌, if◌then◌else◌,
}
use v5gdb.Arch.{ArmBreakpointKind, is_arm32}
use v5gdb.Cpu.Cache.{Machine, CacheTarget, address, sync_instruction}
use v5gdb.Breakpoint.{BreakpointError, cannot_write, already_exists, no_space, Result, ok, err}
use v5gdb.Breakpoint.Software.{
  SwBreakpoint, BreakpointReason, unwanted, new, set_enabled, cache_target,
}
use v5gdb.Target.{V5Target, Slots}

-- The loop of `set_breakpoints_ignored`.
unfoldable pub enable_slots : Bool → Slots → Machine → Slots × Machine
unfolding set_enabled
enable_slots on [] s = ([], s)
enable_slots on (none ∷ bs) s = let (bs', s') = enable_slots on bs s in (none ∷ bs', s')
enable_slots on (some b ∷ bs) s =
    let (b', s1) = set_enabled on b s in
    let (bs', s') = enable_slots on bs (sync_instruction (cache_target b') s1) in
    (some b' ∷ bs', s')

unfoldable pub set_breakpoints_ignored : Bool → V5Target → Machine → V5Target × Machine
unfolding enable_slots
set_breakpoints_ignored ignored t s =
    let (bs, s') = enable_slots (not ignored) t.breaks s in
    (record t { breaks_paused = ignored; breaks = bs }, s')

-- What the loop of `register_sw_breakpoint` finds: a slot with the address, whose breakpoint gets
-- one more reason or has it already, or the first empty slot.
pub data Search : Type 0 where
  merged : ℕ → SwBreakpoint → Search
  duplicate : Search
  vacant : Option ℕ → Search

-- The breakpoint of slot `i` has the address.
merge : Bool → ℕ → SwBreakpoint → Search
merge internal i b =
    if internal && not b.reason.internal
    then merged i (record b { reason = record (b.reason) { internal = true } })
    else if not internal && not b.reason.user
    then merged i (record b { reason = record (b.reason) { user = true } })
    else duplicate

unfoldable pub search_slots : ℕ → Bool → Slots → ℕ → Option ℕ → Search
unfolding merge
search_slots addr internal [] i next = vacant next
search_slots addr internal (none ∷ bs) i next =
    search_slots addr internal bs (suc i) (or_else next (some i))
search_slots addr internal (some b ∷ bs) i next =
    let rest = search_slots addr internal bs (suc i) next in
    if b.instr_addr == addr then merge internal i b else rest

-- A new breakpoint is enabled, and its instruction synced, unless breakpoints are paused.
unfoldable pub activate : Bool → SwBreakpoint → Machine → SwBreakpoint × Machine
unfolding set_enabled
activate true b s = (b, s)
activate false b s =
    let (b', s') = set_enabled true b s in (b', sync_instruction (cache_target b') s')

-- A new breakpoint put into slot `i`.
unfoldable pub place_at :
    ℕ → Bool → Bool → ℕ → V5Target → Machine → Option (Result (Unit {0}) × V5Target × Machine)
unfolding new activate
place_at addr thumb internal i t s = do
  b ← new s addr thumb internal
  let (b', s') = activate t.breaks_paused b s
  some (ok tt, record t { breaks = set t.breaks i (some b') }, s')

-- What the search found decides.
unfoldable pub register_found :
    ℕ → Bool → Bool → V5Target → Machine → Search → Option (Result (Unit {0}) × V5Target × Machine)
unfolding place_at
register_found addr thumb internal t s (merged i b) =
    some (ok tt, record t { breaks = set t.breaks i (some b) }, s)
register_found addr thumb internal t s duplicate = some (err already_exists, t, s)
register_found addr thumb internal t s (vacant none) = some (err no_space, t, s)
register_found addr thumb internal t s (vacant (some i)) = place_at addr thumb internal i t s

unfoldable pub register_sw_breakpoint :
    ℕ → Bool → Bool → V5Target → Machine → Option (Result (Unit {0}) × V5Target × Machine)
unfolding search_slots register_found
register_sw_breakpoint addr thumb internal t s =
    if ltb addr 0x03000000
    then some (err cannot_write, t, s)
    else register_found addr thumb internal t s (search_slots addr internal t.breaks 0 none)

-- The breakpoint with one reason less, if it has the address.
abbrev pub drop_reason : ℕ → Bool → SwBreakpoint → SwBreakpoint
drop_reason addr internal b =
    if b.instr_addr == addr
    then record b {
      reason =
          if internal
          then record (b.reason) { internal = false }
          else record (b.reason) { user = false };
    }
    else b

-- The loop of `remove_sw_breakpoint`; the first result is `changes_made`.
unfoldable pub remove_slots : ℕ → Bool → Slots → Machine → Bool × Slots × Machine
unfolding unwanted set_enabled
remove_slots addr internal [] s = (false, [], s)
remove_slots addr internal (none ∷ bs) s =
    let (c, bs', s') = remove_slots addr internal bs s in (c, none ∷ bs', s')
remove_slots addr internal (some b ∷ bs) s =
    let b1 = drop_reason addr internal b in
    let gone = unwanted b1.reason in
    let s1 = if gone then (set_enabled false b1 s).1 else s in
    let (c, bs', s') = remove_slots addr internal bs s1 in
    (if gone then true else c, (if gone then none else some b1) ∷ bs', s')

unfoldable pub remove_sw_breakpoint : ℕ → Bool → V5Target → Machine → Bool × V5Target × Machine
unfolding remove_slots
remove_sw_breakpoint addr internal t s =
    let (changed, bs, s') = remove_slots addr internal t.breaks s in
    (changed, record t { breaks = bs }, if changed then sync_instruction (address addr) s' else s')

-- The index of the slot with the address, counted from `i`.
unfoldable pub position : ℕ → Slots → ℕ → Option ℕ
position addr [] i = none
position addr (none ∷ bs) i = position addr bs (suc i)
position addr (some b ∷ bs) i =
    let rest = position addr bs (suc i) in if b.instr_addr == addr then some i else rest

unfoldable pub query_sw_breakpoint : ℕ → V5Target → Option ℕ
unfolding position
query_sw_breakpoint addr t = position addr t.breaks 0

-- The `SwBreakpoint` interface to GDB: breakpoints of the user.
unfoldable pub add_sw_breakpoint :
    ℕ → ArmBreakpointKind → V5Target → Machine → Option (Bool × V5Target × Machine)
unfolding register_sw_breakpoint
add_sw_breakpoint addr kind t s = do
  (r, t', s') ← register_sw_breakpoint addr (not (is_arm32 kind)) false t s
  some (elim r [ ok _ ↦ true | err _ ↦ false ], t', s')
