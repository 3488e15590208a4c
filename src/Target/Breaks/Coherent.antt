-- ===== src/Target/Breaks/Coherent.antt =====
-- Instruction fetches see every change that breakpoints make to instructions.
use v5gdb.Base.{ℕ, ◌/◌, ◌≡◌, inl, inr, Bool, true, not, none, some, [], ◌∷◌, Bool-cases, arith}
use v5gdb.Cpu.Cache.{Machine, sync_instruction, IsCoherent}
use v5gdb.Breakpoint.Software.{SwBreakpoint, set_enabled, cache_target}
use v5gdb.Target.{V5Target, Slots}
use v5gdb.Target.Breaks.{enable_slots, set_breakpoints_ignored}
use v5gdb.Target.Breaks.View.{covers}
use v5gdb.Target.Breaks.Toggle.{set_enabled_fields, set_enabled_outside}

-- Every tracked instruction lies in one cache line.
abbrev pub InLines : Slots → Type 0
InLines [] = Unit {0}
InLines (none ∷ bs) = InLines bs
InLines (some b ∷ bs) = ((a : ℕ) → covers b a ≡ true → a / 32 ≡ b.instr_addr / 32) × InLines bs

fetched-set_enabled :
    (on : Bool) (b : SwBreakpoint) (s : Machine) (a : ℕ)
    → (set_enabled on b s).1.fetched a ≡ s.fetched a
unfolding set_enabled
fetched-set_enabled on b s a = ground arith

-- Switching a breakpoint and syncing its line keeps fetches coherent.
IsCoherent-step :
    (on : Bool) (b : SwBreakpoint) (s : Machine)
    → ((a : ℕ) → covers b a ≡ true → a / 32 ≡ b.instr_addr / 32)
    → IsCoherent s
    → IsCoherent (sync_instruction (cache_target (set_enabled on b s).0) (set_enabled on b s).1)
unfolding sync_instruction
IsCoherent-step on b s line co a = elim (Bool-cases (covers b a)) [
  | inl e ↦ ground (arith, set_enabled_fields on b s, line a e)
  | inr e ↦ ground (arith, set_enabled_outside on b s a e, fetched-set_enabled on b s a, co a)
]

enable_slots-IsCoherent :
    (on : Bool) (bs : Slots) (s : Machine)
    → InLines bs
    → IsCoherent s
    → IsCoherent (enable_slots on bs s).1
unfolding enable_slots
enable_slots-IsCoherent on [] s l co = co
enable_slots-IsCoherent on (none ∷ bs) s l co = enable_slots-IsCoherent on bs s l co
enable_slots-IsCoherent on (some b ∷ bs) s l co =
    enable_slots-IsCoherent on bs _ l.1 (IsCoherent-step on b s l.0 co)

-- If every tracked instruction lies in one cache line and instruction fetches see the data, they do
-- so after all breakpoints are paused or resumed.
pub set_breakpoints_ignored-IsCoherent :
    (ignored : Bool) (t : V5Target) (s : Machine)
    → InLines t.breaks
    → IsCoherent s
    → IsCoherent (set_breakpoints_ignored ignored t s).1
unfolding set_breakpoints_ignored
set_breakpoints_ignored-IsCoherent ignored t s l co =
    enable_slots-IsCoherent (not ignored) t.breaks s l co
