-- ===== src/Target/Threads/Back.antt =====
-- A register of any thread is read back as it was written.
use v5gdb.Base.{
  ℕ, ◌≡◌, refl, ap, true, false, Bool-cases, inl, inr, some, List, length, ◌==◌, Memory,
  from_le_bytes,
}
use v5gdb.Arch.{ArmRegisterId, gpr, sp, lr, pc, cpsr, fpr, fpscr, size}
use v5gdb.Sys.Interface.{DebuggerSystem, Saves}
use v5gdb.Target.{V5Target}
use v5gdb.Target.Registers.{done, write_register}
use v5gdb.Target.Registers.Lens.{AreBytes, exists, back, read_register-write_register}
use v5gdb.Target.Saved.{SavedRegister, u32, u64, from_le_bytes_checked, write_to_buffer}
use v5gdb.Target.Threads.{accessed, read_thread_register, write_thread_register}

-- The value that bytes of a register's size stand for.
value_of :
    (id : ArmRegisterId) (val : List ℕ)
    → length val ≡ size id
    → AreBytes val
    → (reg : SavedRegister) × (from_le_bytes_checked val ≡ some reg)
      × (write_to_buffer reg (size id) ≡ some val)
unfolding from_le_bytes_checked write_to_buffer size
value_of (fpr i) val l b = (u64 (from_le_bytes val), rw l refl, ap some (back 8 val l b))
value_of (gpr i) val l b = (u32 (from_le_bytes val), rw l refl, ap some (back 4 val l b))
value_of sp val l b = (u32 (from_le_bytes val), rw l refl, ap some (back 4 val l b))
value_of lr val l b = (u32 (from_le_bytes val), rw l refl, ap some (back 4 val l b))
value_of pc val l b = (u32 (from_le_bytes val), rw l refl, ap some (back 4 val l b))
value_of cpsr val l b = (u32 (from_le_bytes val), rw l refl, ap some (back 4 val l b))
value_of fpscr val l b = (u32 (from_le_bytes val), rw l refl, ap some (back 4 val l b))

-- The debugger's own registers are all there.
abbrev pub HasRegisters : V5Target → Type 0
HasRegisters t =
    (length t.exception_ctx.registers ≡ 13) × (length t.exception_ctx.vfp_registers ≡ 32)

module _ (sys : DebuggerSystem) (saves : Saves sys) where
  -- Bytes that are written to a register of any thread are read back: the write succeeds, and the
  -- read after it gives the same bytes, for the current thread, whose registers the debugger holds,
  -- and for another one, whose registers the system keeps. This supposes that the register exists,
  -- that the bytes are as many as it has, that the debugger's registers are complete and, of
  -- another thread, that the system has it saved as its interface `Saves` asks.
  pub read_thread_register-write_thread_register :
      (tid : ℕ) (id : ArmRegisterId) (val : List ℕ) (t : V5Target) (m : Memory)
      → HasRegisters t
      → exists id ≡ true
      → length val ≡ size id
      → AreBytes val
      → ((reg : SavedRegister)
          → from_le_bytes_checked val ≡ some reg
          → (tid == sys.current_thread) ≡ false
          → saves.IsSaved tid id reg m)
      → (t' : V5Target) × (m' : Memory) × (write_thread_register sys tid id val t m
          ≡ some (accessed (done tt), t', m'))
        × (read_thread_register sys tid id (size id) t' m' ≡ some (accessed (done val)))
  unfolding write_thread_register read_thread_register
  read_thread_register-write_thread_register tid id val t m full ex l b sv =
      elim (Bool-cases (tid == sys.current_thread)) [
        | inl e ↦
            let own = read_register-write_register t.exception_ctx id val full.0 full.1 ex l b in
            (
              record t { exception_ctx = (write_register t.exception_ctx id val).1 },
              m,
              rw (e, own.0) refl,
              rw (e, own.1) refl,
            )
        | inr e ↦
            let (reg, parsed, printed) = value_of id val l b in
            let (m', wrote, got) = saves.back tid id reg m (sv reg parsed e) in
            (t, m', rw (e, parsed, wrote) refl, rw (e, got, printed) refl)
      ]
