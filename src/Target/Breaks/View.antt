-- ===== src/Target/Breaks/View.antt =====
-- The memory of the program under the breakpoints: what it holds once every enabled breakpoint has
-- its original instruction back.
use v5gdb.Base.{
  ℕ, ◌+◌, ◌-◌, ◌≤◌, ◌≡◌, refl, ◌∙◌, ◌⊎◌, Bool, true, false, ◌&&◌, none, some, [], ◌∷◌, length,
  get_or, within, Memory, if◌then◌else◌, arith,
}
use v5gdb.Cpu.Instruction.{Instruction, arm, thumb16, thumb32, bytes, size, is_thumb, write_to}
use v5gdb.Breakpoint.Software.{SwBreakpoint, bkpt_instr}
use v5gdb.Target.{Slots}

-- The address lies in the original instruction, and the byte of it there.
abbrev pub covers : SwBreakpoint → ℕ → Bool
covers b a = within b.instr_addr (size b.instr_backup) a

abbrev pub byte : SwBreakpoint → ℕ → ℕ
byte b a = get_or (bytes b.instr_backup) (a - b.instr_addr) 0

unfoldable pub view : Slots → Memory → ℕ → ℕ
view [] m a = m a
view (none ∷ bs) m a = view bs m a
view (some b ∷ bs) m a = if b.enabled && covers b a then byte b a else view bs m a

-- Two breakpoints whose instructions share no byte.
abbrev pub IsApart : SwBreakpoint → SwBreakpoint → Type 0
IsApart b c =
    (b.instr_addr + size b.instr_backup ≤ c.instr_addr)
    ⊎ (c.instr_addr + size c.instr_backup ≤ b.instr_addr)

abbrev pub Clear : SwBreakpoint → Slots → Type 0
Clear b [] = Unit {0}
Clear b (none ∷ bs) = Clear b bs
Clear b (some c ∷ bs) = IsApart b c × Clear b bs

-- No two tracked instructions share a byte.
abbrev pub Apart : Slots → Type 0
Apart [] = Unit {0}
Apart (none ∷ bs) = Apart bs
Apart (some b ∷ bs) = Clear b bs × Apart bs

-- Memory holds the original instruction of every disabled breakpoint.
abbrev pub Held : Slots → Memory → Type 0
Held [] m = Unit {0}
Held (none ∷ bs) m = Held bs m
Held (some b ∷ bs) m =
    (b.enabled ≡ false → (a : ℕ) → covers b a ≡ true → m a ≡ byte b a) × Held bs m

pub length-bytes : (i : Instruction) → length (bytes i) ≡ size i
unfolding bytes size
length-bytes (arm i) = refl
length-bytes (thumb16 i) = refl
length-bytes (thumb32 h1 h2) = refl

-- The replacement is not longer than the original.
pub size-bkpt_instr : (b : SwBreakpoint) → size (bkpt_instr b) ≤ size b.instr_backup
unfolding size is_thumb
size-bkpt_instr b = ground arith

-- A write is seen at its own bytes and nowhere else.
pub write_to_lem :
    (i : Instruction) (addr : ℕ) (m : Memory) (a : ℕ)
    → write_to i addr m a ≡ (if within addr (size i) a then get_or (bytes i) (a - addr) 0 else m a)
unfolding write_to
write_to_lem i addr m a = ground (arith, length-bytes i)

-- The view at an address depends on memory there only.
pub view_local : (bs : Slots) (m n : Memory) (a : ℕ) → m a ≡ n a → view bs m a ≡ view bs n a
unfolding view
view_local [] m n a h = h
view_local (none ∷ bs) m n a h = view_local bs m n a h
view_local (some b ∷ bs) m n a h = ground (arith, view_local bs m n a h)

-- Apart from its slots the view is memory.
pub view-Clear :
    (b : SwBreakpoint) (bs : Slots) (m : Memory) (a : ℕ)
    → Clear b bs
    → covers b a ≡ true
    → view bs m a ≡ m a
unfolding view
view-Clear b [] m a c h = refl
view-Clear b (none ∷ bs) m a c h = view-Clear b bs m a c h
view-Clear b (some d ∷ bs) m a c h = ground (arith, view-Clear b bs m a c.1 h)

-- Held instructions stay held under a change of memory elsewhere.
pub Held-Clear :
    (b : SwBreakpoint) (bs : Slots) (m n : Memory)
    → Clear b bs
    → ((a : ℕ) → covers b a ≡ false → n a ≡ m a)
    → Held bs m
    → Held bs n
Held-Clear b [] m n c h k = tt
Held-Clear b (none ∷ bs) m n c h k = Held-Clear b bs m n c h k
Held-Clear b (some d ∷ bs) m n c h k =
    (λ off a cov. h a (ground arith) ∙ k.0 off a cov, Held-Clear b bs m n c.1 h k.1)
