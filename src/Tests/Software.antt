-- ===== src/Tests/Software.antt =====
-- Software breakpoints in a small program.
use v5gdb.Base.{ℕ, ◌≡◌, refl, true, false, none, some, [], ◌∷◌, arith}
use v5gdb.Cpu.Instruction.{arm, write_to, read, is_thumb}
use v5gdb.Cpu.Cache.{Machine, sync_instruction}
use v5gdb.Breakpoint.{Result, ok}
use v5gdb.Target.{V5Target}
use v5gdb.Breakpoint.Software.{SwBreakpoint, cache_target}
use v5gdb.Target.Breaks.{set_breakpoints_ignored, register_sw_breakpoint}
use v5gdb.Target.Breaks.View.{view, Apart, Held}
use v5gdb.Target.Breaks.Toggle.{set_breakpoints_ignored-view}
use v5gdb.Target.Breaks.Register.{register_sw_breakpoint_keeps}
use v5gdb.Target.Breaks.Register.Soundness.{Sound}
use v5gdb.Tests.Hardware.{running}

-- Memory of which every byte is 1.
abbrev pub ones : Machine
ones = record { mem = λ _. 1; fetched = λ _. 1 }

running-Sound : Sound running.breaks ones.mem
running-Sound = record { apart = tt; held = tt }

-- The state after the registration: what `register_sw_breakpoint` computes.
abbrev pub placed : SwBreakpoint
placed = record {
  enabled = true;
  instr_addr = 0x03800000;
  instr_backup = arm 0x01010101;
  reason = record { user = true; internal = false };
}

abbrev pub patched : Machine
patched =
    sync_instruction (cache_target placed)
      (record ones { mem = write_to (arm 0xe1200070) 0x03800000 ones.mem })

register_runs :
    register_sw_breakpoint 0x03800000 false false running ones
    ≡ some (ok tt, record running { breaks = some placed ∷ none ∷ [] }, patched)
unfolding register_sw_breakpoint read is_thumb
register_runs = refl

register_sw_breakpoint_keeps_example :
    (x : Result (Unit {0}) × V5Target × Machine) × (register_sw_breakpoint 0x03800000 false false
        running ones
      ≡ some x)
    × Sound x.1.breaks x.2.mem
    × ((a : ℕ) → view x.1.breaks x.2.mem a ≡ view running.breaks ones.mem a)
register_sw_breakpoint_keeps_example =
    register_sw_breakpoint_keeps 0x03800000 false false running ones refl running-Sound
      (λ a. omega arith) (λ _ b _. tt)

set_breakpoints_ignored-view_example :
    let t = record running { breaks = some placed ∷ none ∷ [] } in
    let (t', s') = set_breakpoints_ignored true t patched in
    ((a : ℕ) → view t'.breaks s'.mem a ≡ view t.breaks patched.mem a)
    × (true ≡ true → (a : ℕ) → s'.mem a ≡ view t.breaks patched.mem a)
    × Apart t'.breaks
    × Held t'.breaks s'.mem
set_breakpoints_ignored-view_example =
    set_breakpoints_ignored-view true (record running { breaks = some placed ∷ none ∷ [] }) patched
      (tt, tt) (λ e. cc, tt)
