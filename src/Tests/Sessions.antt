-- ===== src/Tests/Sessions.antt =====
-- Debug events, memory and registers at concrete inputs.
use v5gdb.Base.{
  ℕ, zero, suc, ◌+◌, ◌-◌, ◌*◌, ◌%◌, ◌^◌, ◌<◌, ◌≡◌, refl, Bool, true, false, ◌&&◌, none, some, [],
  ◌∷◌, ◌++◌, length, replicate, ◌==◌, if◌then◌else◌, arith, Memory, load, get_or, within,
}
use v5gdb.Arch.{sp, lr}
use v5gdb.Exceptions.{DebugEventContext}
use v5gdb.Exceptions.Serial.{gdb_serialize, gdb_deserialize}
use v5gdb.Exceptions.Serial.RoundTrip.{AllBelow, IsContext, gdb_deserialize-gdb_serialize}
use v5gdb.Cpu.Vmsa.{MmuRegisters, for_addr, lookup_l1}
use v5gdb.Cpu.Vmsa.Lookup.{lookup_l1-for_addr}
use v5gdb.Breakpoint.Hardware.{locked}
use v5gdb.Target.Registers.Step.{Stepped, step_returns}
use v5gdb.Target.{V5Target, World, active}
use v5gdb.Target.Entry.{enter_breakpoint, leave_breakpoint}
use v5gdb.Target.Events.{IsEntered, held, enter_breakpoint_returns}
use v5gdb.Target.Leaving.{leave_breakpoint_returns}
use v5gdb.Target.Breaks.View.{view, Held}
use v5gdb.Target.Breaks.Live.{AllLive}
use v5gdb.Breakpoint.Software.{SwBreakpoint}
use v5gdb.Cpu.Instruction.{arm, bytes, size}
use v5gdb.Target.Memory.{read_memory, write_memory}
use v5gdb.Target.Memory.Access.{accessible, IsExtent, read_memory_returns, write_memory_returns}
use v5gdb.Target.Stepping.{Ready}
use v5gdb.Target.Registers.{read_register, write_register}
use v5gdb.Target.Registers.Lens.{read_register-other}
use v5gdb.Tests.Hardware.{context, running, running-Ready}
use v5gdb.Tests.Software.{ones}

abbrev pub idle : World
idle = record { machine = ones; suspensions = 0 }

abbrev suspended : World
suspended = record { machine = ones; suspensions = 1 }

enter_breakpoint_returns_example :
    (x : V5Target × World) × (enter_breakpoint context running idle ≡ some x)
    × IsEntered running x.0
    × (x.1.suspensions ≡ 1)
enter_breakpoint_returns_example =
    enter_breakpoint_returns context running idle 0 running-Ready refl refl

-- A breakpoint that is off, over memory that holds its instruction.
abbrev resting : SwBreakpoint
resting = record {
  enabled = false;
  instr_addr = 0x03800000;
  instr_backup = arm 0x01010101;
  reason = record { user = true; internal = false };
}

abbrev with_break : V5Target
with_break = record running { breaks = some resting ∷ none ∷ []; breaks_paused = true }

all_ones : (k : ℕ) → k < 4 → ◌≡◌ {A = ℕ} 1 (get_or (1 ∷ 1 ∷ 1 ∷ 1 ∷ []) k 0)
all_ones zero h = refl
all_ones (suc zero) h = refl
all_ones (suc (suc zero)) h = refl
all_ones (suc (suc (suc zero))) h = refl
all_ones (suc (suc (suc (suc k)))) h = absurd (omega (arith, h))

with_break-Held : Held with_break.breaks ones.mem
unfolding bytes size
with_break-Held = (λ _ a h. all_ones (a - 0x03800000) (ground (arith, h)), tt)

leave_breakpoint_returns_example :
    let (ctx, resume, t', w') = leave_breakpoint with_break suspended in
    AllLive t'.breaks w'.machine.mem
    × ((a : ℕ) → view t'.breaks w'.machine.mem a ≡ view with_break.breaks ones.mem a)
    × (t'.breaks_paused ≡ false)
    × (w'.suspensions - (if resume then 1 else 0) ≡ 0 + held t')
    × (locked t'.hw_manager ≡ with_break.original_hw_lock_state)
    × (ctx ≡ with_break.exception_ctx)
    × Ready t'
leave_breakpoint_returns_example =
    leave_breakpoint_returns with_break suspended 0
      (record { valid = running-Ready.valid; reserved = running-Ready.reserved }) (tt, tt)
      with_break-Held (λ on. cc, tt) refl

-- One table at 0x4000, whose entries all permit everything.
abbrev mmu : MmuRegisters
mmu = record { ttbcr = 0; ttbr0 = 0x4000; ttbr1 = 0; dacr = 0x55555555 }

abbrev open_memory : Memory
open_memory a = if a % 4 == 0 then 2 else if a % 4 == 1 then 12 else 0

lookup_l1-for_addr_example :
    lookup_l1 (for_addr mmu 0x03800000) 0x03800000
    ≡ some ((for_addr mmu 0x03800000).table_ptr + 4 * 56)
lookup_l1-for_addr_example = lookup_l1-for_addr mmu 0x03800000 (omega arith)

read_memory_returns_example :
    (n : ℕ) × (read_memory mmu open_memory 0x03800000 16 ≡ some (load open_memory 0x03800000 n))
    × IsExtent (accessible mmu open_memory false) 0x03800000 0x03800010 n
read_memory_returns_example = read_memory_returns mmu open_memory 0x03800000 16 (omega arith)

write_memory_returns_example :
    (x : Bool × Memory) × (write_memory mmu open_memory 0x03800000 (7 ∷ 8 ∷ []) ≡ some x)
    × (x.0 ≡ true → (i : ℕ) → i < 2 → accessible mmu open_memory true (0x03800000 + i) ≡ true)
    × (x.0 ≡ false → (i : ℕ) × (i < 2) × (accessible mmu open_memory true (0x03800000 + i) ≡ false))
    × ((a : ℕ)
        → x.1 a ≡ (
            if x.0 && within 0x03800000 2 a
            then get_or (7 ∷ 8 ∷ []) (a - 0x03800000) 0
            else open_memory a))
write_memory_returns_example =
    write_memory_returns mmu open_memory 0x03800000 (7 ∷ 8 ∷ []) (omega arith)

below : (bound n : ℕ) → 5 < bound → AllBelow bound (replicate n 5)
below bound zero h = tt
below bound (suc n) h = (h, below bound n h)

abbrev pub full : DebugEventContext
full = record context { vfp_registers = replicate 32 5; registers = replicate 13 5 }

pub full-IsContext : IsContext full
full-IsContext = record {
  cpsr_small = omega arith;
  sp_small = omega arith;
  lr_small = omega arith;
  fpscr_small = omega arith;
  pc_small = omega arith;
  registers_small = below (2 ^ 32) 13 (omega arith);
  vfp_small = below (2 ^ 64) 32 (omega arith);
  num_registers = refl;
  num_vfp = refl;
}

gdb_deserialize-gdb_serialize_example :
    (length (gdb_serialize full) ≡ 328)
    × (gdb_deserialize full (gdb_serialize full ++ (1 ∷ [])) ≡ (full, some (1 ∷ [])))
gdb_deserialize-gdb_serialize_example =
    gdb_deserialize-gdb_serialize full full (1 ∷ []) full-IsContext refl refl

read_register-other_example :
    read_register ((write_register full sp (1 ∷ 2 ∷ 3 ∷ 4 ∷ [])).1) lr 4 ≡ read_register full lr 4
read_register-other_example = read_register-other full sp lr (1 ∷ 2 ∷ 3 ∷ 4 ∷ []) 4 (λ e. cc)

abbrev entered_target : V5Target
entered_target = record running {
  monitor_status = active;
  breaks_paused = true;
  original_hw_lock_state = false;
}

entered_target-IsEntered : IsEntered running entered_target
entered_target-IsEntered = record {
  ready = record { valid = running-Ready.valid; reserved = running-Ready.reserved };
  unlocked = refl;
  no_request = refl;
  not_pending = refl;
  is_active = refl;
  recorded = refl;
  paused = refl;
}

step_returns_example : Stepped entered_target true
step_returns_example = step_returns running entered_target entered_target-IsEntered
