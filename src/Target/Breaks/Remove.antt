-- ===== src/Target/Breaks/Remove.antt =====
-- Removing breakpoints leaves the program's memory as it is under them.
use v5gdb.Base.{
  ℕ, ◌≡◌, refl, ap, ◌∙◌, Bool, true, false, none, some, [], ◌∷◌, if◌then◌else◌, arith, Memory,
}
use v5gdb.Cpu.Cache.{Machine, sync_instruction, address}
use v5gdb.Breakpoint.Software.{SwBreakpoint, unwanted, set_enabled}
use v5gdb.Target.{V5Target, Slots}
use v5gdb.Target.Breaks.{drop_reason, remove_slots, remove_sw_breakpoint}
use v5gdb.Target.Breaks.View.{covers, byte, view, Clear, Apart, Held, IsApart, Held-Clear}
use v5gdb.Target.Breaks.Toggle.{set_enabled_outside, off_step}

-- Memory after one round.
abbrev next : Bool → SwBreakpoint → Machine → Machine
next gone b s = if gone then (set_enabled false b s).1 else s

next-outside :
    (gone : Bool) (b : SwBreakpoint) (s : Machine) (a : ℕ)
    → covers b a ≡ false
    → (next gone b s).mem a ≡ s.mem a
next-outside true b s a out = set_enabled_outside false b s a out
next-outside false b s a out = refl

keep-view :
    (gone : Bool) (b : SwBreakpoint) (bs bs' : Slots) (s : Machine) (m' : Memory) (a : ℕ)
    → Clear b bs
    → (b.enabled ≡ false → covers b a ≡ true → s.mem a ≡ byte b a)
    → view bs' m' a ≡ view bs (next gone b s).mem a
    → view ((if gone then none else some b) ∷ bs') m' a ≡ view (some b ∷ bs) s.mem a
unfolding view sync_instruction
keep-view true b bs bs' s m' a c held e = off_step b bs s a c held _ e
keep-view false b bs bs' s m' a c held e = rw e refl

-- A slot that is emptied or kept, before others.
Clear-cons :
    (gone : Bool) (c b : SwBreakpoint) (bs : Slots)
    → IsApart c b
    → Clear c bs
    → Clear c ((if gone then none else some b) ∷ bs)
Clear-cons true c b bs i h = h
Clear-cons false c b bs i h = (i, h)

Apart-cons :
    (gone : Bool) (b : SwBreakpoint) (bs : Slots)
    → Clear b bs
    → Apart bs
    → Apart ((if gone then none else some b) ∷ bs)
Apart-cons true b bs c p = p
Apart-cons false b bs c p = (c, p)

Held-cons :
    (gone : Bool) (b : SwBreakpoint) (bs : Slots) (m : Memory)
    → (gone ≡ false → b.enabled ≡ false → (a : ℕ) → covers b a ≡ true → m a ≡ byte b a)
    → Held bs m
    → Held ((if gone then none else some b) ∷ bs) m
Held-cons true b bs m k h = h
Held-cons false b bs m k h = (k refl, h)

module _ (addr : ℕ) (internal : Bool) where
  drop : SwBreakpoint → SwBreakpoint
  drop b = drop_reason addr internal b

  drop_fields :
      (b : SwBreakpoint)
      → ((drop b).enabled ≡ b.enabled)
        × ((drop b).instr_addr ≡ b.instr_addr)
        × ((drop b).instr_backup ≡ b.instr_backup)
  unfolding drop
  drop_fields b = ground arith

  Clear-drop : (b : SwBreakpoint) (bs : Slots) → Clear b bs → Clear (drop b) bs
  Clear-drop b [] c = tt
  Clear-drop b (none ∷ bs) c = Clear-drop b bs c
  Clear-drop b (some d ∷ bs) c = (ground (arith, drop_fields b, c.0), Clear-drop b bs c.1)

  view-drop :
      (b : SwBreakpoint) (bs : Slots) (m : Memory) (a : ℕ)
      → view (some (drop b) ∷ bs) m a ≡ view (some b ∷ bs) m a
  unfolding view
  view-drop b bs m a = ground (arith, drop_fields b)

  held_drop :
      (b : SwBreakpoint) (m : Memory)
      → (b.enabled ≡ false → (a : ℕ) → covers b a ≡ true → m a ≡ byte b a)
      → (drop b).enabled ≡ false
      → (a : ℕ) → covers (drop b) a ≡ true
      → m a ≡ byte (drop b) a
  held_drop b m h off a cov =
      ground (arith, drop_fields b, (λ (off' : b.enabled ≡ false). h off' a))

  -- Whether the round removes the breakpoint, and what the later rounds see.
  goes : SwBreakpoint → Bool
  goes b = unwanted (drop b).reason

  Held-next :
      (b : SwBreakpoint) (bs : Slots) (s : Machine)
      → Clear b bs
      → Held bs s.mem
      → Held bs (next (goes b) (drop b) s).mem
  Held-next b bs s c h =
      Held-Clear (drop b) bs s.mem (next (goes b) (drop b) s).mem (Clear-drop b bs c)
        (λ a out. next-outside (goes b) (drop b) s a out) h

  Clear-remove_slots :
      (c : SwBreakpoint) (bs : Slots) (s : Machine)
      → Clear c bs
      → Clear c (remove_slots addr internal bs s).1
  unfolding remove_slots drop goes
  Clear-remove_slots c [] s h = tt
  Clear-remove_slots c (none ∷ bs) s h = Clear-remove_slots c bs s h
  Clear-remove_slots c (some b ∷ bs) s h =
      Clear-cons (goes b) c (drop b) _ (ground (arith, drop_fields b, h.0))
        (Clear-remove_slots c bs (next (goes b) (drop b) s) h.1)

  -- Memory stays as it is away from the tracked instructions.
  mem-remove_slots :
      (c : SwBreakpoint) (bs : Slots) (s : Machine) (a : ℕ)
      → Clear c bs
      → covers c a ≡ true
      → (remove_slots addr internal bs s).2.mem a ≡ s.mem a
  unfolding remove_slots drop goes
  mem-remove_slots c [] s a h cov = refl
  mem-remove_slots c (none ∷ bs) s a h cov = mem-remove_slots c bs s a h cov
  mem-remove_slots c (some b ∷ bs) s a h cov =
      mem-remove_slots c bs (next (goes b) (drop b) s) a h.1 cov
      ∙ next-outside (goes b) (drop b) s a (ground (arith, drop_fields b, h.0, cov))

  remove_slots-Apart :
      (bs : Slots) (s : Machine) → Apart bs → Apart (remove_slots addr internal bs s).1
  unfolding remove_slots drop goes
  remove_slots-Apart [] s p = tt
  remove_slots-Apart (none ∷ bs) s p = remove_slots-Apart bs s p
  remove_slots-Apart (some b ∷ bs) s p =
      Apart-cons (goes b) (drop b) _
        (Clear-remove_slots (drop b) bs (next (goes b) (drop b) s) (Clear-drop b bs p.0))
        (remove_slots-Apart bs (next (goes b) (drop b) s) p.1)

  remove_slots-Held :
      (bs : Slots) (s : Machine)
      → Apart bs
      → Held bs s.mem
      → let (_, bs', s') = remove_slots addr internal bs s in Held bs' s'.mem
  unfolding remove_slots drop goes
  remove_slots-Held [] s p h = tt
  remove_slots-Held (none ∷ bs) s p h = remove_slots-Held bs s p h
  remove_slots-Held (some b ∷ bs) s p h =
      Held-cons (goes b) (drop b) _ _
        (λ stays off a cov.
          mem-remove_slots (drop b) bs (next (goes b) (drop b) s) a (Clear-drop b bs p.0) cov
          ∙ kept b s stays a
          ∙ held_drop b s.mem h.0 off a cov)
        (remove_slots-Held bs (next (goes b) (drop b) s) p.1 (Held-next b bs s p.0 h.1))
    where
      kept :
          (b : SwBreakpoint) (s : Machine)
          → goes b ≡ false
          → (a : ℕ) → (next (goes b) (drop b) s).mem a ≡ s.mem a
      kept b s stays a = ap (λ g. (next g (drop b) s).mem a) stays

  remove_slots-view :
      (bs : Slots) (s : Machine) (a : ℕ)
      → Apart bs
      → Held bs s.mem
      → let (_, bs', s') = remove_slots addr internal bs s in view bs' s'.mem a ≡ view bs s.mem a
  unfolding remove_slots drop goes view
  remove_slots-view [] s a p h = refl
  remove_slots-view (none ∷ bs) s a p h = remove_slots-view bs s a p h
  remove_slots-view (some b ∷ bs) s a p h =
      keep-view (goes b) (drop b) bs _ s _ a (Clear-drop b bs p.0)
        (λ off cov. held_drop b s.mem h.0 off a cov)
        (remove_slots-view bs (next (goes b) (drop b) s) a p.1 (Held-next b bs s p.0 h.1))
      ∙ view-drop b bs s.mem a

-- Removing a breakpoint, or one of its two reasons, changes nothing of the program's memory under
-- the breakpoints, and afterwards no two tracked instructions overlap and disabled ones are in
-- memory, if both was so before.
pub remove_sw_breakpoint-view :
    (addr : ℕ) (internal : Bool) (t : V5Target) (s : Machine)
    → Apart t.breaks
    → Held t.breaks s.mem
    → let (_, t', s') = remove_sw_breakpoint addr internal t s in
      ((a : ℕ) → view t'.breaks s'.mem a ≡ view t.breaks s.mem a)
      × Apart t'.breaks
      × Held t'.breaks s'.mem
unfolding remove_sw_breakpoint sync_instruction
remove_sw_breakpoint-view addr internal t s p h = synced (remove_slots addr internal t.breaks s).0
  where
    after : Machine
    after = (remove_slots addr internal t.breaks s).2

    slots : Slots
    slots = (remove_slots addr internal t.breaks s).1

    synced :
        (changed : Bool)
        → let m = (if changed then sync_instruction (address addr) after else after).mem in
          ((a : ℕ) → view slots m a ≡ view t.breaks s.mem a) × Apart slots × Held slots m
    synced true = (
      λ a. remove_slots-view addr internal t.breaks s a p h,
      remove_slots-Apart addr internal t.breaks s p,
      remove_slots-Held addr internal t.breaks s p h,
    )
    synced false = (
      λ a. remove_slots-view addr internal t.breaks s a p h,
      remove_slots-Apart addr internal t.breaks s p,
      remove_slots-Held addr internal t.breaks s p h,
    )
