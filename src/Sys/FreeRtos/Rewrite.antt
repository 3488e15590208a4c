-- ===== src/Sys/FreeRtos/Rewrite.antt =====
-- Writing the registers of a switched-out task (src/sys/freertos/mod.rs, `write_registers`).
pub mod Place
use v5gdb.Base.{
  ℕ, zero, suc, ◌+◌, ◌-◌, ◌*◌, ◌^◌, ◌<◌, ◌≤◌, ◌≡◌, refl, sym, ◌∙◌, ap, subst, Bool, true, none,
  some, List, [], ◌∷◌, ◌++◌, length, length-append, length-to_le_bytes, length-take, length-drop,
  take, drop, take-append-drop, Memory, load, to_le_bytes, from_le_bytes,
  from_le_bytes-to_le_bytes4, from_le_bytes-to_le_bytes8, arith,
}
use mathlib.Core.List.{append-nil}
use v5gdb.Cpu.Instruction.{read_word}
use v5gdb.Exceptions.{DebugEventContext}
use v5gdb.Exceptions.Serial.{send_all}
use v5gdb.Exceptions.Serial.RoundTrip.{AllBelow, IsContext}
use v5gdb.Sys.FreeRtos.{read_array, context_bytes, context_at}
use v5gdb.Sys.FreeRtos.Layout.{
  Holds, Holds-left, Holds-right, value-Holds, read_array-Holds, length-send_all,
}

AllBelow-take : (bound n : ℕ) (xs : List ℕ) → AllBelow bound xs → AllBelow bound (take n xs)
AllBelow-take bound zero xs h = tt
AllBelow-take bound (suc n) [] h = tt
AllBelow-take bound (suc n) (x ∷ xs) h = (h.0, AllBelow-take bound n xs h.1)

AllBelow-drop : (bound n : ℕ) (xs : List ℕ) → AllBelow bound xs → AllBelow bound (drop n xs)
AllBelow-drop bound zero xs h = h
AllBelow-drop bound (suc n) [] h = tt
AllBelow-drop bound (suc n) (x ∷ xs) h = AllBelow-drop bound n xs h.1

module _ (m : Memory) where
  -- A word, and what lies after it.
  word_at :
      (base x next : ℕ) (rest : List ℕ)
      → x < 2 ^ 32
      → next ≡ base + 4
      → Holds m base (to_le_bytes 4 x ++ rest)
      → (read_word m base ≡ x) × Holds m next rest
  unfolding read_word
  word_at base x next rest small e h = (
    value-Holds 4 m base x (from_le_bytes-to_le_bytes4 x small)
        (Holds-left m base (to_le_bytes 4 x) rest h),
    subst (λ a. Holds m a rest) (omega (arith, length-to_le_bytes 4 x))
        (Holds-right m base (to_le_bytes 4 x) rest h),
  )

  -- An array, and what lies after it.
  array_at :
      (n bound base next count : ℕ) (xs rest : List ℕ)
      → ((x : ℕ) → x < bound → from_le_bytes (to_le_bytes n x) ≡ x)
      → AllBelow bound xs
      → length xs ≡ count
      → next ≡ base + n * count
      → Holds m base (send_all n xs ++ rest)
      → (read_array m n base count ≡ xs) × Holds m next rest
  array_at n bound base next count xs rest back small len e h = (
    subst (λ k. read_array m n base k ≡ xs) len
        (read_array-Holds n bound back m base xs small (Holds-left m base (send_all n xs) rest h)),
    subst (λ a. Holds m a rest)
        (ap (λ k. base + k) (length-send_all n xs ∙ ap (λ k. n * k) len) ∙ sym e)
        (Holds-right m base (send_all n xs) rest h),
  )

  -- What lies in memory is what was to be written.
  pub context_at-context_bytes :
      (ctx v nesting : ℕ) (regs : DebugEventContext)
      → IsContext regs
      → nesting < 2 ^ 32
      → Holds m ctx (context_bytes regs nesting)
      → (read_word m ctx ≡ 1) × (context_at m ctx v ≡ record regs { stack_pointer = v })
  unfolding context_at context_bytes
  context_at-context_bytes ctx v nesting regs ok small h =
      let back8 = from_le_bytes-to_le_bytes8 in
      let back4 = from_le_bytes-to_le_bytes4 in
      let upper = drop 16 regs.vfp_registers in
      let lower = take 16 regs.vfp_registers in
      let t8 : List ℕ = to_le_bytes 4 regs.cpsr in
      let t7 : List ℕ = to_le_bytes 4 regs.program_counter ++ t8 in
      let t6 : List ℕ = to_le_bytes 4 regs.link_register ++ t7 in
      let t5 : List ℕ = send_all 4 regs.registers ++ t6 in
      let t4 : List ℕ = to_le_bytes 4 nesting ++ t5 in
      let t3 : List ℕ = send_all 8 lower ++ t4 in
      let t2 : List ℕ = send_all 8 upper ++ t3 in
      let t1 : List ℕ = to_le_bytes 4 regs.fpscr ++ t2 in
      let (flag, h1) = word_at ctx 1 (ctx + 4) t1 (omega arith) refl h in
      let (fpscr, h2) = word_at (ctx + 4) regs.fpscr (ctx + 8) t2 ok.fpscr_small (omega arith) h1 in
      let (high, h3) =
        array_at 8 (2 ^ 64) (ctx + 8) (ctx + 136) 16 upper t3 back8
          (AllBelow-drop (2 ^ 64) 16 regs.vfp_registers ok.vfp_small)
          (omega (arith, length-drop 16 regs.vfp_registers, ok.num_vfp)) (omega arith) h2 in
      let (low, h4) =
        array_at 8 (2 ^ 64) (ctx + 136) (ctx + 264) 16 lower t4 back8
          (AllBelow-take (2 ^ 64) 16 regs.vfp_registers ok.vfp_small)
          (omega (arith, length-take 16 regs.vfp_registers, ok.num_vfp)) (omega arith) h3 in
      let (_, h5) = word_at (ctx + 264) nesting (ctx + 268) t5 small (omega arith) h4 in
      let (gprs, h6) =
        array_at 4 (2 ^ 32) (ctx + 268) (ctx + 320) 13 regs.registers t6 back4 ok.registers_small
          ok.num_registers (omega arith) h5 in
      let (lr, h7) =
        word_at (ctx + 320) regs.link_register (ctx + 324) t7 ok.lr_small (omega arith) h6 in
      let (pc, h8) =
        word_at (ctx + 324) regs.program_counter (ctx + 328) t8 ok.pc_small (omega arith) h7 in
      let (cpsr, _) =
        word_at (ctx + 328) regs.cpsr (ctx + 332) [] ok.cpsr_small (omega arith)
          (subst (Holds m (ctx + 328)) (sym (append-nil (to_le_bytes 4 regs.cpsr))) h8) in
      let vfp : read_array m 8 (ctx + 136) 16 ++ read_array m 8 (ctx + 8) 16 ≡ regs.vfp_registers =
        ap (λ l. l ++ read_array m 8 (ctx + 8) 16) low
        ∙ ap (λ l. lower ++ l) high
        ∙ take-append-drop 16 regs.vfp_registers in
      (flag, cc (cpsr, lr, fpscr, vfp, gprs, pc))
