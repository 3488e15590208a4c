-- ===== src/Tests/Start.antt =====
-- A new target, removals, permissions and the competition status at concrete inputs.
use v5gdb.Base.{refl, ◌/◌, ℕ, ◌≡◌, true, false, not, ◌&&◌, none, some, [], ◌∷◌, leb, ◌==◌, arith}
use v5gdb.Cpu.Debug.{DebugId}
use v5gdb.Breakpoint.Hardware.{locked}
use v5gdb.Target.{V5Target}
use v5gdb.Target.Breaks.{remove_sw_breakpoint, set_breakpoints_ignored}
use v5gdb.Target.Breaks.Coherent.{set_breakpoints_ignored-IsCoherent}
use v5gdb.Cpu.Cache.{IsCoherent}
use v5gdb.Cpu.Instruction.{size}
use v5gdb.Target.Breaks.View.{covers, view, Apart, Held}
use v5gdb.Target.Breaks.Remove.{remove_sw_breakpoint-view}
use v5gdb.Target.Memory.{permits}
use v5gdb.Target.Memory.Access.{permission_bits, permits-permission_bits}
use v5gdb.Target.Start.{new_target, new_target-Ready}
use v5gdb.Target.Stepping.{Ready}
use v5gdb.Tests.Hardware.{logic, running}
use v5gdb.Tests.Software.{ones, placed, patched}

-- A processor with six breakpoints and four watchpoints.
abbrev pub zynq : DebugId
zynq = record { wrps = 3; brps = 5 }

new_target-Ready_example :
    (t : V5Target) × (new_target zynq logic ≡ some t)
    × Ready t
    × (locked t.hw_manager ≡ true)
    × Apart t.breaks
    × Held t.breaks ones.mem
new_target-Ready_example = new_target-Ready zynq logic ones.mem (omega arith) (omega arith)

remove_sw_breakpoint-view_example :
    let t = record running { breaks = some placed ∷ none ∷ [] } in
    let (_, t', s') = remove_sw_breakpoint 0x03800000 false t patched in
    ((a : ℕ) → view t'.breaks s'.mem a ≡ view t.breaks patched.mem a)
    × Apart t'.breaks
    × Held t'.breaks s'.mem
remove_sw_breakpoint-view_example =
    remove_sw_breakpoint-view 0x03800000 false (record running { breaks = some placed ∷ none ∷ [] })
      patched (tt, tt) (λ e. cc, tt)

permits-permission_bits_example :
    let bits = permission_bits 0x8c02 in
    (permits true 0x8c02 ≡ (true && (leb 1 bits && leb bits 3)))
    × (permits false 0x8c02 ≡ (true && (not (bits == 0) && not (bits == 4))))
permits-permission_bits_example = permits-permission_bits 0x8c02

in_line : (a : ℕ) → covers placed a ≡ true → a / 32 ≡ placed.instr_addr / 32
unfolding size
in_line a h = ground arith

set_breakpoints_ignored-IsCoherent_example :
    IsCoherent
      (set_breakpoints_ignored true (record running { breaks = some placed ∷ none ∷ [] }) ones).1
set_breakpoints_ignored-IsCoherent_example =
    set_breakpoints_ignored-IsCoherent true (record running { breaks = some placed ∷ none ∷ [] })
      ones (in_line, tt) (λ a. refl)
