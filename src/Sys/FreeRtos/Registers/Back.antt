-- ===== src/Sys/FreeRtos/Registers/Back.antt =====
-- A register of a switched-out task is read back as it was written (src/sys/freertos).
use v5gdb.Base.{
  ℕ, suc, ◌+◌, ◌-◌, ◌*◌, ◌^◌, ◌<◌, ◌≤◌, ◌≡◌, refl, sym, ◌∙◌, ap, false, none, some, List,
  length-to_le_bytes, within, Memory, load, store, to_le_bytes, from_le_bytes-to_le_bytes4,
  from_le_bytes-to_le_bytes8, ◌==◌, if◌then◌else◌, arith,
}
use v5gdb.Arch.{ArmRegisterId, gpr, sp, lr, pc, cpsr, fpr, fpscr}
use v5gdb.Cpu.Instruction.{read_word}
use v5gdb.Target.Saved.{SavedRegister, u32, u64}
use v5gdb.Sys.{found}
use v5gdb.Sys.FreeRtos
use v5gdb.Sys.FreeRtos.{
  TaskStatus, context_under, stack_ptr, lookup_saved_task, saved_context, set_sp,
}
use v5gdb.Sys.FreeRtos.Layout.{value-Holds, Holds-store}
use v5gdb.Sys.FreeRtos.Rewrite.Place.{read_word-store, read_word-apart}
use v5gdb.Sys.FreeRtos.Registers.{
  fpr_addr, read_u32, read_u64, put_u32, put_u64, read_of_task, write_of_task, read_single_register,
  write_single_register,
}

-- The register exists, and the value has its width.
abbrev pub Fits : ArmRegisterId → SavedRegister → Type 0
Fits (fpr i) (u64 v) = (i < 32) × (v < 2 ^ 64)
Fits (gpr i) (u32 v) = (i < 13) × (v < 2 ^ 32)
Fits (fpr i) (u32 v) = ⊥
Fits _ (u32 v) = v < 2 ^ 32
Fits _ (u64 v) = ⊥

-- The place of the context once the register is written.
abbrev pub place_after : ℕ → ArmRegisterId → SavedRegister → ℕ
place_after ctx sp (u32 v) = context_under v
place_after ctx _ _ = ctx

-- The stack pointer in the control block is not part of a context at the place.
abbrev pub IsClear : TaskStatus → ℕ → Type 0
IsClear t place = (i : ℕ) → i < 4 → within place 332 (t.handle + i) ≡ false

saved_context-stack_ptr :
    (t : TaskStatus) (m : Memory) (ctx : ℕ) → saved_context t m ≡ some ctx → stack_ptr t m ≡ ctx
unfolding saved_context
saved_context-stack_ptr t m ctx h = ground arith

-- A context stays where the stack pointer and the flag are as they were.
saved_context_stays :
    (t : TaskStatus) (m m' : Memory) (ctx ctx' : ℕ)
    → saved_context t m ≡ some ctx
    → stack_ptr t m' ≡ ctx'
    → read_word m' ctx' ≡ read_word m ctx
    → saved_context t m' ≡ some ctx'
unfolding saved_context
saved_context_stays t m m' ctx ctx' h e f =
    let place = saved_context-stack_ptr t m ctx h in
    let flag : (if read_word m ctx == 0 then none else some ctx) ≡ some ctx =
      ap (λ a. if read_word m a == 0 then none else some a) (sym place) ∙ h in
    ap (λ a. if read_word m' a == 0 then none else some a) e
    ∙ ap (λ w. if w == 0 then none else some ctx') f
    ∙ still (read_word m ctx) flag
  where
    still :
        (w : ℕ)
        → (if w == 0 then none else some ctx) ≡ some ctx
        → (if w == 0 then none else some ctx') ≡ some ctx'
    still w g = ground (arith, g)

-- The first word of what was copied.
read_word-copy :
    (m : Memory) (dst src n : ℕ)
    → read_word (store m dst (load m src (suc (suc (suc (suc n)))))) dst ≡ read_word m src
unfolding read_word load
read_word-copy m dst src n =
    let h = Holds-store m dst (load m src (suc (suc (suc (suc n))))) in
    rw (h.0, h.1.0, h.1.1.0, h.1.1.1.0) refl

module _ (t : TaskStatus) (ctx : ℕ) (m : Memory) (saved : saved_context t m ≡ some ctx)
    (clear : IsClear t ctx) where
  -- A field of `n` bytes behind the flag.
  field_stays :
      (a n v : ℕ)
      → ctx + 4 ≤ a
      → a + n ≤ ctx + 332
      → saved_context t (store m a (to_le_bytes n v)) ≡ some ctx
  unfolding stack_ptr
  field_stays a n v lo hi =
      saved_context_stays t m (store m a (to_le_bytes n v)) ctx ctx saved
        (read_word-apart m t.handle a (to_le_bytes n v)
            (λ i lt. ground (arith, length-to_le_bytes n v, clear i lt))
          ∙ saved_context-stack_ptr t m ctx saved)
        (read_word-apart m ctx a (to_le_bytes n v) (λ i lt. ground (arith, length-to_le_bytes n v)))

  -- The four bytes of a word that is read back.
  back_u32 : (a v : ℕ) → v < 2 ^ 32 → read_u32 (store m a (to_le_bytes 4 v)) a ≡ u32 v
  unfolding read_u32
  back_u32 a v h = ap u32 (
      value-Holds 4 (store m a (to_le_bytes 4 v)) a v (from_le_bytes-to_le_bytes4 v h)
        (Holds-store m a (to_le_bytes 4 v)))

  back_u64 : (a v : ℕ) → v < 2 ^ 64 → read_u64 (store m a (to_le_bytes 8 v)) a ≡ u64 v
  unfolding read_u64
  back_u64 a v h = ap u64 (
      value-Holds 8 (store m a (to_le_bytes 8 v)) a v (from_le_bytes-to_le_bytes8 v h)
        (Holds-store m a (to_le_bytes 8 v)))

  -- A register of the task is written and read back.
  abbrev pub ReadsBack : ArmRegisterId → SavedRegister → Type 0
  ReadsBack id value =
      let place = place_after ctx id value in
      (m' : Memory) × (write_of_task t ctx id value m ≡ some m')
      × (saved_context t m' ≡ some place)
      × (read_of_task t place id m' ≡ some value)

  -- The memory once the stack pointer of the task is `v`, and its context copied.
  retargeted : ℕ → Memory
  retargeted v =
      let m' = store m t.handle (to_le_bytes 4 (context_under v)) in
      store m' (context_under v) (load m' ctx 332)

  copied_flag : (v : ℕ) → read_word (retargeted v) (context_under v) ≡ read_word m ctx
  unfolding retargeted
  copied_flag v =
      let place = context_under v in
      read_word-copy (store m t.handle (to_le_bytes 4 place)) place ctx 328
      ∙ read_word-apart m ctx t.handle (to_le_bytes 4 place)
          (λ i lt. ground (arith, length-to_le_bytes 4 place, clear (ctx + i - t.handle)))

  retargeted_sp :
      (v : ℕ) → IsClear t (context_under v) → stack_ptr t (retargeted v) ≡ context_under v
  unfolding stack_ptr retargeted
  retargeted_sp v h =
      let place = context_under v in
      let m' = store m t.handle (to_le_bytes 4 place) in
      read_word-apart m' t.handle place (load m' ctx 332) h
      ∙ read_word-store m t.handle place (omega arith)

  back_sp : (v : ℕ) → v < 2 ^ 32 → IsClear t (context_under v) → ReadsBack sp (u32 v)
  unfolding write_of_task read_of_task set_sp retargeted FreeRtos.sp
  back_sp v h c = (
    retargeted v,
    rw saved refl,
    saved_context_stays t m (retargeted v) ctx (context_under v) saved (retargeted_sp v c)
        (copied_flag v),
    ap (λ x. some (u32 x)) (omega (arith, retargeted_sp v c)),
  )

  back :
      (id : ArmRegisterId) (value : SavedRegister)
      → Fits id value
      → IsClear t (place_after ctx id value)
      → ReadsBack id value
  unfolding write_of_task read_of_task put_u32 put_u64
  back (gpr i) (u32 v) (lt, h) c = (
    store m (ctx + 268 + 4 * i) (to_le_bytes 4 v),
    ground (arith, lt),
    field_stays (ctx + 268 + 4 * i) 4 v (omega arith) (omega (arith, lt)),
    ground (arith, lt, back_u32 (ctx + 268 + 4 * i) v h),
  )
  back lr (u32 v) h c = (
    store m (ctx + 320) (to_le_bytes 4 v),
    refl,
    field_stays (ctx + 320) 4 v (omega arith) (omega arith),
    ap some (back_u32 (ctx + 320) v h),
  )
  back sp (u32 v) h c = back_sp v h c
  back pc (u32 v) h c = (
    store m (ctx + 324) (to_le_bytes 4 v),
    refl,
    field_stays (ctx + 324) 4 v (omega arith) (omega arith),
    ap some (back_u32 (ctx + 324) v h),
  )
  back cpsr (u32 v) h c = (
    store m (ctx + 328) (to_le_bytes 4 v),
    refl,
    field_stays (ctx + 328) 4 v (omega arith) (omega arith),
    ap some (back_u32 (ctx + 328) v h),
  )
  back fpscr (u32 v) h c = (
    store m (ctx + 4) (to_le_bytes 4 v),
    refl,
    field_stays (ctx + 4) 4 v (omega arith) (omega arith),
    ap some (back_u32 (ctx + 4) v h),
  )
  back (fpr i) (u64 v) (lt, h) c = (
    store m (fpr_addr ctx i) (to_le_bytes 8 v),
    ground (arith, lt),
    field_stays (fpr_addr ctx i) 8 v (ground (arith, lt)) (ground (arith, lt)),
    ground (arith, lt, back_u64 (fpr_addr ctx i) v h),
  )
  back (gpr i) (u64 v) h c = elim h [ ]
  back sp (u64 v) h c = elim h [ ]
  back lr (u64 v) h c = elim h [ ]
  back pc (u64 v) h c = elim h [ ]
  back cpsr (u64 v) h c = elim h [ ]
  back (fpr i) (u32 v) h c = elim h [ ]
  back fpscr (u64 v) h c = elim h [ ]

-- A register of a task that is switched out, which can be written and read back.
pub record IsSavedTask (tasks : List TaskStatus) (tid : ℕ) (id : ArmRegisterId)
    (value : SavedRegister) (m : Memory) : Type 0 where
  pub task : TaskStatus
  pub ctx : ℕ
  pub looked_up : lookup_saved_task tid tasks ≡ some (found task)
  pub saved : saved_context task m ≡ some ctx
  pub fits : Fits id value
  pub clear : IsClear task ctx
  pub clear_after : IsClear task (place_after ctx id value)

pub read_single_register-write_single_register :
    (tasks : List TaskStatus) (tid : ℕ) (id : ArmRegisterId) (value : SavedRegister) (m : Memory)
    → IsSavedTask tasks tid id value m
    → (m' : Memory) × (write_single_register tid tasks id value m ≡ some (found tt, m'))
      × (read_single_register tid tasks id m' ≡ some (found value))
unfolding write_single_register read_single_register
read_single_register-write_single_register tasks tid id value m h =
    let (m', wrote, there, got) =
      back h.task h.ctx m h.saved h.clear id value h.fits h.clear_after in
    (m', rw (h.looked_up, h.saved, wrote) refl, rw (h.looked_up, there, got) refl)
