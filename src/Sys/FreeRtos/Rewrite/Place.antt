-- ===== src/Sys/FreeRtos/Rewrite/Place.antt =====
-- Where the registers of a switched-out task are written, and read back (src/sys/freertos).
use v5gdb.Base.{
  ℕ, zero, suc, ◌+◌, ◌^◌, ◌<◌, ◌≡◌, ◌≢◌, refl, sym, ◌∙◌, ap, subst, false, none, some, List, ◌∷◌,
  ◌++◌, length, length-append, length-take, length-drop, take, drop, within, Memory, load, store,
  to_le_bytes, from_le_bytes, from_le_bytes-to_le_bytes4, ◌==◌, if◌then◌else◌, arith,
}
use v5gdb.Cpu.Instruction.{read_word}
use v5gdb.Exceptions.{DebugEventContext}
use v5gdb.Exceptions.Serial.{send_all}
use v5gdb.Exceptions.Serial.RoundTrip.{IsContext}
use v5gdb.Target.Breaks.Register.Read.{IsBytes}
use v5gdb.Sys.{found}
use v5gdb.Sys.FreeRtos.{
  TaskStatus, context_under, stack_ptr, sp, saved_context, set_sp, lookup_saved_task, context_bytes,
  context_at, read_registers, write_task, write_registers,
}
use v5gdb.Sys.FreeRtos.Layout.{Holds-store, value-Holds, length-send_all}
use v5gdb.Sys.FreeRtos.Rewrite.{context_at-context_bytes}

pub load_local :
    (m m' : Memory) (a n : ℕ)
    → ((i : ℕ) → i < n → m (a + i) ≡ m' (a + i))
    → load m a n ≡ load m' a n
unfolding load
load_local m m' a zero h = refl
load_local m m' a (suc n) h =
    let first : m a ≡ m' a = ap m (omega arith) ∙ h 0 (omega arith) ∙ ap m' (omega arith) in
    ap (λ x. x ∷ load m (suc a) n) first
    ∙ ap (λ l. m' a ∷ l)
        (load_local m m' (suc a) n
          (λ i lt. ap m (omega arith) ∙ h (suc i) (omega arith) ∙ ap m' (omega arith)))

length-context_bytes :
    (regs : DebugEventContext) (nesting : ℕ)
    → IsContext regs
    → length (context_bytes regs nesting) ≡ 332
unfolding context_bytes to_le_bytes
length-context_bytes regs nesting ok =
    let upper = drop 16 regs.vfp_registers in
    let lower = take 16 regs.vfp_registers in
    let t8 : List ℕ = to_le_bytes 4 regs.cpsr in
    let t7 : List ℕ = to_le_bytes 4 regs.program_counter ++ t8 in
    let t6 : List ℕ = to_le_bytes 4 regs.link_register ++ t7 in
    let t5 : List ℕ = send_all 4 regs.registers ++ t6 in
    let t4 : List ℕ = to_le_bytes 4 nesting ++ t5 in
    let t3 : List ℕ = send_all 8 lower ++ t4 in
    let high : length (send_all 8 upper ++ t3) ≡ length (send_all 8 upper) + length t3 =
      length-append (send_all 8 upper) t3 in
    let low : length t3 ≡ length (send_all 8 lower) + length t4 =
      length-append (send_all 8 lower) t4 in
    let gprs : length t5 ≡ length (send_all 4 regs.registers) + length t6 =
      length-append (send_all 4 regs.registers) t6 in
    omega (
      arith,
      high,
      low,
      gprs,
      length-send_all 8 upper,
      length-send_all 8 lower,
      length-send_all 4 regs.registers,
      length-drop 16 regs.vfp_registers,
      length-take 16 regs.vfp_registers,
      ok.num_vfp,
      ok.num_registers,
    )

-- A word that was stored is read back.
pub read_word-store :
    (m : Memory) (a x : ℕ) → x < 2 ^ 32 → read_word (store m a (to_le_bytes 4 x)) a ≡ x
unfolding read_word
read_word-store m a x h =
    value-Holds 4 (store m a (to_le_bytes 4 x)) a x (from_le_bytes-to_le_bytes4 x h)
      (Holds-store m a (to_le_bytes 4 x))

-- A word away from a store is as it was.
pub read_word-apart :
    (m : Memory) (a base : ℕ) (bs : List ℕ)
    → ((i : ℕ) → i < 4 → within base (length bs) (a + i) ≡ false)
    → read_word (store m base bs) a ≡ read_word m a
unfolding read_word store
read_word-apart m a base bs h =
    ap from_le_bytes (load_local (store m base bs) m a 4 (λ i lt. rw (h i lt) refl))

read_word_small : (m : Memory) (a : ℕ) → IsBytes m → read_word m a < 2 ^ 32
unfolding read_word
read_word_small m a h = omega (arith, h a, h (suc a), h (suc (suc a)), h (suc (suc (suc a))))

-- Memory once the stack pointer of the task is set.
abbrev pub moved : TaskStatus → DebugEventContext → Memory → Memory
moved t regs m = store m t.handle (to_le_bytes 4 (context_under regs.stack_pointer))

-- The task's registers are written under the new stack pointer, and read back.
abbrev pub Rewritten : ℕ → List TaskStatus → DebugEventContext → Memory → Type 0
Rewritten tid tasks regs m =
    (m' : Memory) × (write_registers tid tasks regs m ≡ some (found tt, m'))
    × (read_registers tid tasks m' ≡ some (found regs))

module _ (tid : ℕ) (tasks : List TaskStatus) (regs : DebugEventContext) (m : Memory)
    (t : TaskStatus) (old : ℕ) (ok : IsContext regs) (small : read_word m (old + 264) < 2 ^ 32)
    (looked_up : lookup_saved_task tid tasks ≡ some (found t))
    (saved : saved_context t m ≡ some old)
    (apart : (i : ℕ)
      → i < 4
      → within (context_under regs.stack_pointer) 332 (t.handle + i) ≡ false) where
  abbrev new : ℕ
  new = context_under regs.stack_pointer

  abbrev nesting : ℕ
  nesting = read_word m (old + 264)

  stack_ptr-moved : read_word (moved t regs m) t.handle ≡ new
  stack_ptr-moved = read_word-store m t.handle new (omega arith)

  saved_context-moved :
      saved_context t (moved t regs m)
      ≡ (if read_word (moved t regs m) new == 0 then none else some new)
  unfolding saved_context stack_ptr
  saved_context-moved =
      ap (λ a. if read_word (moved t regs m) a == 0 then none else some a) stack_ptr-moved

  unwritten : read_word (moved t regs m) new ≡ 0 → write_registers tid tasks regs m ≡ none
  unfolding write_registers write_task set_sp
  unwritten e =
      let gone : saved_context t (moved t regs m) ≡ none =
        saved_context-moved ∙ ap (λ w. if w == 0 then none else some new) e in
      rw looked_up (rw saved (rw gone refl))

  -- Memory once the registers are written.
  after : Memory
  after = store (moved t regs m) new (context_bytes regs nesting)

  stack_ptr-after : stack_ptr t after ≡ new
  unfolding stack_ptr after
  stack_ptr-after =
      read_word-apart (moved t regs m) t.handle new (context_bytes regs nesting) (λ i lt.
        subst (λ n. within new n (t.handle + i) ≡ false)
          (sym (length-context_bytes regs nesting ok)) (apart i lt))
      ∙ stack_ptr-moved

  context-after :
      (read_word after new ≡ 1)
      × (context_at after new regs.stack_pointer
          ≡ record regs { stack_pointer = regs.stack_pointer })
  unfolding after
  context-after =
      context_at-context_bytes after new regs.stack_pointer nesting regs ok small
        (Holds-store (moved t regs m) new (context_bytes regs nesting))

  saved_context-after : saved_context t after ≡ some new
  unfolding saved_context
  saved_context-after =
      ap (λ a. if read_word after a == 0 then none else some a) stack_ptr-after
      ∙ ap (λ w. if w == 0 then none else some new) context-after.0

  sp-after : sp t after ≡ regs.stack_pointer
  unfolding sp
  sp-after = omega (arith, stack_ptr-after, ok.sp_small)

  nonzero : (w : ℕ) → w ≢ 0 → (if w == 0 then none else some new) ≡ some new
  nonzero w h = ground (arith, h)

  wrote :
      read_word (moved t regs m) new ≢ 0 → write_registers tid tasks regs m ≡ some (found tt, after)
  unfolding write_registers write_task set_sp after
  wrote ne =
      let there : saved_context t (moved t regs m) ≡ some new =
        saved_context-moved ∙ nonzero (read_word (moved t regs m) new) ne in
      rw looked_up (rw saved (rw there refl))

  read_back : read_registers tid tasks after ≡ some (found regs)
  unfolding read_registers
  read_back = rw looked_up (
      rw saved_context-after (
        ap (λ v. some (found (context_at after new v))) sp-after
        ∙ ap (λ r. some (found r)) context-after.1))

-- The registers of a task that is switched out are written to the place under the new stack pointer.
-- If the word there is not zero once the stack pointer is set, the write succeeds, and reading the
-- task's registers afterwards gives all that was written. If it is zero, the write panics: the code
-- asks whether the task has a floating-point context at the new place, where nothing was written
-- yet. This supposes that the task has such a context at the old place, that the registers fit
-- their widths, that memory holds bytes, and that the new place does not overlap the task's stack
-- pointer.
pub write_registers_rewrites :
    (tid : ℕ) (tasks : List TaskStatus) (regs : DebugEventContext) (m : Memory) (t : TaskStatus)
    (old : ℕ)
    → IsContext regs
    → IsBytes m
    → lookup_saved_task tid tasks ≡ some (found t)
    → saved_context t m ≡ some old
    → ((i : ℕ) → i < 4 → within (context_under regs.stack_pointer) 332 (t.handle + i) ≡ false)
    → let there = read_word (moved t regs m) (context_under regs.stack_pointer) in
      (there ≢ 0 → Rewritten tid tasks regs m)
      × (there ≡ 0 → write_registers tid tasks regs m ≡ none)
write_registers_rewrites tid tasks regs m t old ok in_bytes looked_up saved apart =
    let small = read_word_small m (old + 264) in_bytes in
    (
      λ ne. (
        after tid tasks regs m t old ok small looked_up saved apart,
        wrote tid tasks regs m t old ok small looked_up saved apart ne,
        read_back tid tasks regs m t old ok small looked_up saved apart,
      ),
      unwritten tid tasks regs m t old ok small looked_up saved apart,
    )
