-- ===== src/Target/Breaks/Live.antt =====
-- Enabling all breakpoints puts their instructions into memory (src/gdb_target/mod.rs).
use v5gdb.Base.{
  ℕ, ◌-◌, ◌≡◌, refl, sym, ◌∙◌, subst, inl, inr, Bool, true, false, none, some, [], ◌∷◌, Bool-cases,
  get_or, within, Memory, arith,
}
use v5gdb.Cpu.Instruction.{bytes, size}
use v5gdb.Cpu.Cache.{Machine}
use v5gdb.Breakpoint.Software.{SwBreakpoint, bkpt_instr, set_enabled}
use v5gdb.Target.{Slots}
use v5gdb.Target.Breaks.{enable_slots}
use v5gdb.Target.Breaks.View.{covers, Clear, Apart, size-bkpt_instr, write_to_lem}
use v5gdb.Target.Breaks.Toggle.{
  after_first, mem-after_first, set_enabled_fields, set_enabled_outside,
}

-- Memory holds the `bkpt` that replaces the instruction of the slot.
abbrev pub HoldsBkpt : SwBreakpoint → Memory → Type 0
HoldsBkpt b m =
    (a : ℕ)
    → within b.instr_addr (size (bkpt_instr b)) a ≡ true
    → m a ≡ get_or (bytes (bkpt_instr b)) (a - b.instr_addr) 0

-- Memory does so for every enabled slot.
abbrev pub EnabledHold : Slots → Memory → Type 0
EnabledHold [] m = Unit {0}
EnabledHold (none ∷ bs) m = EnabledHold bs m
EnabledHold (some b ∷ bs) m = (b.enabled ≡ true → HoldsBkpt b m) × EnabledHold bs m

-- Every slot is enabled, and memory does so for it.
abbrev pub AllLive : Slots → Memory → Type 0
AllLive [] m = Unit {0}
AllLive (none ∷ bs) m = AllLive bs m
AllLive (some b ∷ bs) m = (b.enabled ≡ true) × HoldsBkpt b m × AllLive bs m

pub set_enabled_on :
    (b : SwBreakpoint) (s : Machine)
    → (b.enabled ≡ true → HoldsBkpt b s.mem)
    → HoldsBkpt b (set_enabled true b s).1.mem
unfolding set_enabled
set_enabled_on b s h a cov = elim (Bool-cases b.enabled) [
  | inl e ↦ rw e (h e a cov)
  | inr e ↦ rw e (ground (arith, write_to_lem (bkpt_instr b) b.instr_addr s.mem a, cov))
]

pub enabled_lem :
    (b : SwBreakpoint) (s : Machine) → (set_enabled true b s).0 ≡ record b { enabled = true }
unfolding set_enabled
enabled_lem b s = ground arith

bkpt-covers :
    (b : SwBreakpoint) (a : ℕ)
    → within b.instr_addr (size (bkpt_instr b)) a ≡ true
    → covers b a ≡ true
bkpt-covers b a h = ground (arith, size-bkpt_instr b, h)

-- A slot that is apart is not written to.
Clear-covers :
    (b c : SwBreakpoint) (bs : Slots) (a : ℕ)
    → Clear b (some c ∷ bs)
    → covers b a ≡ true
    → covers c a ≡ false
Clear-covers b c bs a (apart, _) h = ground (arith, apart, h)

pub enable_slots_outside :
    (on : Bool) (b : SwBreakpoint) (bs : Slots) (s : Machine) (a : ℕ)
    → Clear b bs
    → covers b a ≡ true
    → (enable_slots on bs s).1.mem a ≡ s.mem a
unfolding enable_slots
enable_slots_outside on b [] s a c h = refl
enable_slots_outside on b (none ∷ bs) s a c h = enable_slots_outside on b bs s a c h
enable_slots_outside on b (some d ∷ bs) s a c h =
    enable_slots_outside on b bs (after_first on d s) a c.1 h
    ∙ mem-after_first on d s a
    ∙ set_enabled_outside on d s a (Clear-covers b d bs a c h)

-- What the later slots hold stands while the first is switched.
EnabledHold-after_first :
    (on : Bool) (b : SwBreakpoint) (bs : Slots) (s : Machine)
    → Clear b bs
    → EnabledHold bs s.mem
    → EnabledHold bs (after_first on b s).mem
EnabledHold-after_first on b [] s c h = tt
EnabledHold-after_first on b (none ∷ bs) s c h = EnabledHold-after_first on b bs s c h
EnabledHold-after_first on b (some d ∷ bs) s c h = (
  λ e a cov.
      mem-after_first on b s a
      ∙ set_enabled_outside on b s a (ground (arith, c.0, bkpt-covers d a cov))
      ∙ h.0 e a cov,
  EnabledHold-after_first on b bs s c.1 h.1,
)

pub enable_slots-AllLive :
    (bs : Slots) (s : Machine)
    → Apart bs
    → EnabledHold bs s.mem
    → let (bs', s') = enable_slots true bs s in AllLive bs' s'.mem
unfolding enable_slots
enable_slots-AllLive [] s p h = tt
enable_slots-AllLive (none ∷ bs) s p h = enable_slots-AllLive bs s p h
enable_slots-AllLive (some b ∷ bs) s p h =
    let (on, at, backup, _) = set_enabled_fields true b s in
    (
      on,
      holds,
      enable_slots-AllLive bs (after_first true b s) p.1
          (EnabledHold-after_first true b bs s p.0 h.1),
    )
  where
    held :
        (a : ℕ)
        → within b.instr_addr (size (bkpt_instr b)) a ≡ true
        → (enable_slots true bs (after_first true b s)).1.mem a
          ≡ get_or (bytes (bkpt_instr b)) (a - b.instr_addr) 0
    held a cov =
        enable_slots_outside true b bs (after_first true b s) a p.0 (bkpt-covers b a cov)
        ∙ mem-after_first true b s a
        ∙ set_enabled_on b s h.0 a cov

    holds : HoldsBkpt (set_enabled true b s).0 (enable_slots true bs (after_first true b s)).1.mem
    holds =
        subst (λ d. HoldsBkpt d (enable_slots true bs (after_first true b s)).1.mem)
          (sym (enabled_lem b s)) held
