-- ===== src/Sdk/Redirect.antt =====
-- Redirecting a function of the SDK (src/sdk/mod.rs, `redirect_function`).
use v5gdb.Base.{
  ℕ, ◌+◌, ◌-◌, ◌*◌, ◌/◌, ◌%◌, ◌≤◌, ◌≡◌, Bool, true, List, length, length-to_le_bytes, take, get_or,
  within, store, to_le_bytes, ◌==◌, if◌then◌else◌, arith,
}
use v5gdb.Cpu.Cache.{Machine, address, sync_instruction}

-- The code of the two trampolines, which the assembler makes of sdk_trampoline.s.
pub record Trampolines : Type 0 where
  pub arm : List ℕ
  pub thumb : List ℕ

-- A pointer to code without its Thumb bit.
abbrev pub code_addr : ℕ → ℕ
code_addr f = f - f % 2

abbrev pub is_thumb_pointer : ℕ → Bool
is_thumb_pointer f = f % 2 == 1

-- The code that is copied: whole halfwords.
abbrev pub trampoline_code : Trampolines → ℕ → List ℕ
trampoline_code p target =
    let code = if is_thumb_pointer target then p.thumb else p.arm in
    take (2 * (length code / 2)) code

unfoldable pub redirect_function : Trampolines → ℕ → ℕ → Machine → Machine
unfolding sync_instruction
redirect_function p target destination s =
    let write_addr = code_addr target in
    let code = trampoline_code p target in
    let destination_slot = write_addr + length code in
    let m = store (store s.mem write_addr code) destination_slot (to_le_bytes 4 destination) in
    sync_instruction (address destination_slot)
      (sync_instruction (address write_addr) (record s { mem = m }))

-- After the redirection memory holds the trampoline's code at the function and the destination's
-- address, little-endian, right after it; the rest of memory is as it was. If the code is not longer
-- than a cache line, instruction fetches see all of it.
pub redirect_function_lem :
    (p : Trampolines) (target destination : ℕ) (s : Machine)
    → length (trampoline_code p target) ≤ 32
    → let s' = redirect_function p target destination s in
      let code = trampoline_code p target in
      let at = code_addr target in
      ((a : ℕ)
        → s'.mem a ≡ (
            if within at (length code) a
            then get_or code (a - at) 0
            else if within (at + length code) 4 a
            then get_or (to_le_bytes 4 destination) (a - (at + length code)) 0
            else s.mem a))
      × ((a : ℕ) → within at (length code) a ≡ true → s'.fetched a ≡ s'.mem a)
unfolding redirect_function store
redirect_function_lem p target destination s h = (
  λ a. ground (arith, length-to_le_bytes 4 destination),
  λ a w. ground (arith, length-to_le_bytes 4 destination),
)
