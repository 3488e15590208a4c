-- ===== src/Target/Breaks/Register/Read.antt =====
-- What a new breakpoint reads of memory.
use v5gdb.Base.{
  ℕ, ◌+◌, ◌-◌, ◌<◌, ◌≡◌, ap, inl, inr, Bool, true, false, some, get_or, Memory, get_or-load,
  to_le_bytes-load, Option-cases, arith,
}
use v5gdb.Cpu.Instruction.{Instruction, bytes, size, read}
use v5gdb.Cpu.Cache.{Machine}
use v5gdb.Breakpoint.Software.{SwBreakpoint, new}
use v5gdb.Target.Breaks.View.{covers, byte}

-- Memory that holds bytes.
abbrev pub IsBytes : Memory → Type 0
IsBytes m = (a : ℕ) → m a < 256

-- An instruction that is read is the bytes at its address.
pub read-bytes :
    (m : Memory) (addr : ℕ) (thumb : Bool) (i : Instruction) (k : ℕ)
    → IsBytes m
    → read m addr thumb ≡ some i
    → k < size i
    → get_or (bytes i) k 0 ≡ m (addr + k)
unfolding read bytes size
read-bytes m addr true i k h e lt = ground (
  arith,
  to_le_bytes-load m 2 addr h,
  to_le_bytes-load m 2 (addr + 2) h,
  get_or-load m 2 addr k,
  get_or-load m 2 (addr + 2) (k - 2),
)
read-bytes m addr false i k h e lt =
    ground (arith, to_le_bytes-load m 4 addr h, get_or-load m 4 addr k)

-- A fresh breakpoint is disabled, and its original instruction is what memory holds.
pub new-byte :
    (s : Machine) (addr : ℕ) (thumb internal : Bool) (b : SwBreakpoint) (a : ℕ)
    → IsBytes s.mem
    → new s addr thumb internal ≡ some b
    → covers b a ≡ true
    → byte b a ≡ s.mem a
unfolding new
new-byte s addr thumb internal b a h e cov = elim (Option-cases (read s.mem addr thumb)) [
  | inl f ↦ absurd (ground (arith, f))
  | inr (i, f) ↦ ground (
    arith,
    f,
    read-bytes s.mem addr thumb i (a - addr) h f,
    (λ (p : addr + (a - addr) ≡ a). ap s.mem p),
  )
]

pub new_fields :
    (s : Machine) (addr : ℕ) (thumb internal : Bool) (b : SwBreakpoint)
    → new s addr thumb internal ≡ some b
    → (b.enabled ≡ false) × (b.instr_addr ≡ addr)
unfolding new
new_fields s addr thumb internal b e = ground arith
