-- ===== src/Target/Breaks/Toggle.antt =====
-- Enabling and disabling all breakpoints leaves the program's memory as it is under them.
use v5gdb.Base.{
  ℕ, ◌≡◌, refl, ◌∙◌, inl, inr, Bool, true, false, ◌&&◌, none, some, [], ◌∷◌, Bool-cases,
  if◌then◌else◌, arith,
}
use v5gdb.Cpu.Cache.{Machine, sync_instruction}
use v5gdb.Breakpoint.Software.{SwBreakpoint, bkpt_instr, set_enabled, cache_target}
use v5gdb.Target.{V5Target, Slots}
use v5gdb.Target.Breaks.{enable_slots, set_breakpoints_ignored}
use v5gdb.Target.Breaks.View.{
  covers, byte, view, Clear, Apart, Held, size-bkpt_instr, write_to_lem, view_local, view-Clear,
  Held-Clear,
}

module _ (on : Bool) (b : SwBreakpoint) (s : Machine) where
  pub set_enabled_fields :
      let b' = (set_enabled on b s).0 in
      (b'.enabled ≡ on)
      × (b'.instr_addr ≡ b.instr_addr)
      × (b'.instr_backup ≡ b.instr_backup)
      × (b'.reason ≡ b.reason)
  unfolding set_enabled
  set_enabled_fields = ground arith

  pub set_enabled_outside : (a : ℕ) → covers b a ≡ false → (set_enabled on b s).1.mem a ≡ s.mem a
  unfolding set_enabled
  set_enabled_outside a h = ground (
    arith,
    write_to_lem (bkpt_instr b) b.instr_addr s.mem a,
    write_to_lem b.instr_backup b.instr_addr s.mem a,
    size-bkpt_instr b,
  )

-- Disabling puts the original bytes back.
pub set_enabled_off :
    (b : SwBreakpoint) (s : Machine) (a : ℕ)
    → (b.enabled ≡ false → s.mem a ≡ byte b a)
    → covers b a ≡ true
    → (set_enabled false b s).1.mem a ≡ byte b a
unfolding set_enabled
set_enabled_off b s a held h = ground (arith, write_to_lem b.instr_backup b.instr_addr s.mem a)

-- The slots with other enabled flags and the same addresses.
Clear-enable_slots :
    (on : Bool) (c : SwBreakpoint) (bs : Slots) (s : Machine)
    → Clear c bs
    → Clear c (enable_slots on bs s).0
unfolding enable_slots
Clear-enable_slots on c [] s h = tt
Clear-enable_slots on c (none ∷ bs) s h = Clear-enable_slots on c bs s h
Clear-enable_slots on c (some b ∷ bs) s h =
    (ground (arith, set_enabled_fields on b s, h.0), Clear-enable_slots on c bs _ h.1)

-- The state after the first slot is switched and synced.
abbrev pub after_first : Bool → SwBreakpoint → Machine → Machine
after_first on b s = sync_instruction (cache_target (set_enabled on b s).0) (set_enabled on b s).1

pub mem-after_first :
    (on : Bool) (b : SwBreakpoint) (s : Machine) (a : ℕ)
    → (after_first on b s).mem a ≡ (set_enabled on b s).1.mem a
unfolding sync_instruction
mem-after_first on b s a = refl

-- The other slots hold their instructions still.
Held-after_first :
    (on : Bool) (b : SwBreakpoint) (bs : Slots) (s : Machine)
    → Clear b bs
    → Held bs s.mem
    → Held bs (after_first on b s).mem
Held-after_first on b bs s c h =
    Held-Clear b bs s.mem (after_first on b s).mem c
      (λ a out. mem-after_first on b s a ∙ set_enabled_outside on b s a out) h

module _ (b : SwBreakpoint) (bs : Slots) (s : Machine) (a : ℕ) (c : Clear b bs)
    (held : b.enabled ≡ false → covers b a ≡ true → s.mem a ≡ byte b a) where
  -- What the later slots leave at an address, in terms of memory before the first is switched.
  later_uncovered :
      (on : Bool) → covers b a ≡ false → view bs (after_first on b s).mem a ≡ view bs s.mem a
  later_uncovered on e =
      view_local bs (after_first on b s).mem s.mem a
        (mem-after_first on b s a ∙ set_enabled_outside on b s a e)

  later_covered_off : covers b a ≡ true → view bs (after_first false b s).mem a ≡ byte b a
  later_covered_off e =
      view-Clear b bs (after_first false b s).mem a c e
      ∙ mem-after_first false b s a
      ∙ set_enabled_off b s a (λ off. held off e) e

  under : covers b a ≡ true → (if b.enabled then byte b a else view bs s.mem a) ≡ byte b a
  under e = elim (Bool-cases b.enabled) [
    | inl on ↦ rw on
    | inr off ↦ rw off (view-Clear b bs s.mem a c e ∙ held off e)
  ]

  pub off_step :
      (x : ℕ)
      → x ≡ view bs (after_first false b s).mem a
      → x ≡ (if b.enabled && covers b a then byte b a else view bs s.mem a)
  off_step x h = ground (arith, later_uncovered false, later_covered_off, under)

  view_step :
      (on : Bool) (x : ℕ)
      → x ≡ view bs (after_first on b s).mem a
      → let b' = (set_enabled on b s).0 in
        (if b'.enabled && covers b' a then byte b' a else x)
        ≡ (if b.enabled && covers b a then byte b a else view bs s.mem a)
  view_step true x h = ground (arith, set_enabled_fields true b s, later_uncovered true, under)
  view_step false x h =
      ground (arith, set_enabled_fields false b s, later_uncovered false, later_covered_off, under)

-- With the slots off, memory is the view.
pub enable_slots_off :
    (bs : Slots) (s : Machine) (a : ℕ)
    → Apart bs
    → Held bs s.mem
    → (enable_slots false bs s).1.mem a ≡ view bs s.mem a
unfolding enable_slots view
enable_slots_off [] s a p h = refl
enable_slots_off (none ∷ bs) s a p h = enable_slots_off bs s a p h
enable_slots_off (some b ∷ bs) s a p h =
    off_step b bs s a p.0 (λ off. h.0 off a) _
      (enable_slots_off bs (after_first false b s) a p.1 (Held-after_first false b bs s p.0 h.1))

-- Switching the slots changes nothing of the view.
pub enable_slots-view :
    (on : Bool) (bs : Slots) (s : Machine) (a : ℕ)
    → Apart bs
    → Held bs s.mem
    → let (bs', s') = enable_slots on bs s in view bs' s'.mem a ≡ view bs s.mem a
unfolding enable_slots view
enable_slots-view on [] s a p h = refl
enable_slots-view on (none ∷ bs) s a p h = enable_slots-view on bs s a p h
enable_slots-view on (some b ∷ bs) s a p h =
    view_step b bs s a p.0 (λ off. h.0 off a) on _
      (enable_slots-view on bs (after_first on b s) a p.1 (Held-after_first on b bs s p.0 h.1))

Clear-set_enabled :
    (on : Bool) (b : SwBreakpoint) (s : Machine) (bs : Slots)
    → Clear b bs
    → Clear (set_enabled on b s).0 bs
Clear-set_enabled on b s [] c = tt
Clear-set_enabled on b s (none ∷ bs) c = Clear-set_enabled on b s bs c
Clear-set_enabled on b s (some d ∷ bs) c =
    (ground (arith, set_enabled_fields on b s, c.0), Clear-set_enabled on b s bs c.1)

-- The slots stay apart.
pub enable_slots-Apart :
    (on : Bool) (bs : Slots) (s : Machine) → Apart bs → Apart (enable_slots on bs s).0
unfolding enable_slots
enable_slots-Apart on [] s p = tt
enable_slots-Apart on (none ∷ bs) s p = enable_slots-Apart on bs s p
enable_slots-Apart on (some b ∷ bs) s p = (
  Clear-set_enabled on b s (enable_slots on bs (after_first on b s)).0
      (Clear-enable_slots on b bs (after_first on b s) p.0),
  enable_slots-Apart on bs (after_first on b s) p.1,
)

-- Every slot holds its instruction after the switch.
pub enable_slots-Held :
    (on : Bool) (bs : Slots) (s : Machine)
    → Apart bs
    → Held bs s.mem
    → let (bs', s') = enable_slots on bs s in Held bs' s'.mem
unfolding enable_slots
enable_slots-Held on [] s p h = tt
enable_slots-Held on (none ∷ bs) s p h = enable_slots-Held on bs s p h
enable_slots-Held true (some b ∷ bs) s p h = (
  λ off. ground (arith, set_enabled_fields true b s),
  enable_slots-Held true bs (after_first true b s) p.1 (Held-after_first true b bs s p.0 h.1),
)
enable_slots-Held false (some b ∷ bs) s p h = (
  λ off a cov.
      enable_slots_off bs (after_first false b s) a p.1 (Held-after_first false b bs s p.0 h.1)
      ∙ ground (
        arith,
        set_enabled_fields false b s,
        later_covered_off b bs s a p.0 (λ off'. h.0 off' a),
      ),
  enable_slots-Held false bs (after_first false b s) p.1 (Held-after_first false b bs s p.0 h.1),
)

-- While tracked instructions share no byte and disabled ones are in memory, pausing or resuming all
-- breakpoints changes nothing of the program's memory under them, and keeps both conditions.
-- While they are paused, that memory is what the debugger reads.
pub set_breakpoints_ignored-view :
    (ignored : Bool) (t : V5Target) (s : Machine)
    → Apart t.breaks
    → Held t.breaks s.mem
    → let (t', s') = set_breakpoints_ignored ignored t s in
      ((a : ℕ) → view t'.breaks s'.mem a ≡ view t.breaks s.mem a)
      × (ignored ≡ true → (a : ℕ) → s'.mem a ≡ view t.breaks s.mem a)
      × Apart t'.breaks
      × Held t'.breaks s'.mem
unfolding set_breakpoints_ignored
set_breakpoints_ignored-view true t s p h = (
  λ a. enable_slots-view false t.breaks s a p h,
  λ _ a. enable_slots_off t.breaks s a p h,
  enable_slots-Apart false t.breaks s p,
  enable_slots-Held false t.breaks s p h,
)
set_breakpoints_ignored-view false t s p h = (
  λ a. enable_slots-view true t.breaks s a p h,
  λ e. cc,
  enable_slots-Apart true t.breaks s p,
  enable_slots-Held true t.breaks s p h,
)
