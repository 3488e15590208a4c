-- ===== src/Exceptions/Serial.antt =====
-- The registers as GDB sends and receives them (src/exceptions/mod.rs, `gdb_serialize` and
-- `gdb_deserialize`).
pub mod RoundTrip
use v5gdb.Base.{
  ℕ, zero, suc, ◌+◌, Bool, true, false, Option, none, some, List, [], ◌∷◌, ◌++◌, length, take, drop,
  ltb, if◌then◌else◌, to_le_bytes, from_le_bytes,
}
use v5gdb.Exceptions.{DebugEventContext}

-- Registers of `n` bytes each, sent in order.
unfoldable pub send_all : ℕ → List ℕ → List ℕ
unfolding to_le_bytes
send_all n [] = []
send_all n (r ∷ rs) = to_le_bytes n r ++ send_all n rs

-- The bytes that `gdb_serialize` writes.
unfoldable pub gdb_serialize : DebugEventContext → List ℕ
unfolding to_le_bytes send_all
gdb_serialize ctx =
    send_all 4 ctx.registers
    ++ (to_le_bytes 4 ctx.stack_pointer
        ++ (to_le_bytes 4 ctx.link_register
            ++ (to_le_bytes 4 ctx.program_counter
                ++ (to_le_bytes 4 ctx.cpsr
                    ++ (send_all 8 ctx.vfp_registers ++ to_le_bytes 4 ctx.fpscr)))))

-- The inner `read`: a register of `n` bytes, and the bytes after it.
unfoldable pub read : ℕ → List ℕ → Option (ℕ × List ℕ)
unfolding from_le_bytes
read n bytes =
    if ltb (length bytes) n then none else some (from_le_bytes (take n bytes), drop n bytes)

-- The registers read so far, and the bytes left, or `none` once a read has failed: the registers
-- after it keep their values.
abbrev pub Reading : Type 0
Reading = DebugEventContext × Option (List ℕ)

-- One register.
unfoldable pub word_into : (ℕ → DebugEventContext → DebugEventContext) → Reading → Reading
word_into put (ctx, none) = (ctx, none)
word_into put (ctx, some bytes) = elim (read 4 bytes) [
  | none ↦ (ctx, none)
  | some (v, bytes') ↦ (put v ctx, some bytes')
]

-- The loop over an array of registers.
unfoldable pub read_all : ℕ → List ℕ → List ℕ → List ℕ × Option (List ℕ)
read_all n [] bytes = ([], some bytes)
read_all n (r ∷ rs) bytes = elim (read n bytes) [
  | none ↦ (r ∷ rs, none)
  | some (v, bytes') ↦ let (vs, left) = read_all n rs bytes' in (v ∷ vs, left)
]

unfoldable pub registers_into : Reading → Reading
unfolding read_all
registers_into (ctx, none) = (ctx, none)
registers_into (ctx, some bytes) =
    let (rs, left) = read_all 4 ctx.registers bytes in (record ctx { registers = rs }, left)

unfoldable pub vfp_registers_into : Reading → Reading
unfolding read_all
vfp_registers_into (ctx, none) = (ctx, none)
vfp_registers_into (ctx, some bytes) =
    let (rs, left) = read_all 8 ctx.vfp_registers bytes in (record ctx { vfp_registers = rs }, left)

-- `gdb_deserialize`; it fails if no list is left.
unfoldable pub gdb_deserialize : DebugEventContext → List ℕ → Reading
unfolding word_into registers_into vfp_registers_into
gdb_deserialize ctx bytes =
    word_into (λ v c. record c { fpscr = v })
      (vfp_registers_into (
        word_into (λ v c. record c { cpsr = v })
          (word_into (λ v c. record c { program_counter = v })
            (word_into (λ v c. record c { link_register = v })
              (word_into (λ v c. record c { stack_pointer = v })
                (registers_into (ctx, some bytes)))))))
