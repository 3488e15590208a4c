-- ===== src/Target/Registers/Lens.antt =====
-- Reading back a register that was written.
use v5gdb.Base.{
  ℕ, ◌+◌, ◌*◌, ◌/◌, ◌%◌, ◌<◌, ◌≡◌, ◌≢◌, refl, ap, subst, Bool, true, some, List, [], ◌∷◌, length,
  get_elem?-set_self, get_elem?-set_ne, ltb, arith, to_le_bytes, from_le_bytes,
}
use v5gdb.Arch.{ArmRegisterId, gpr, sp, lr, pc, cpsr, fpr, fpscr, size, from_raw_id}
use v5gdb.Exceptions.{DebugEventContext}
use v5gdb.Target.Registers.{done, read_reg, read_entry, read_register, write_reg, write_register}

abbrev pub AreBytes : List ℕ → Type 0
AreBytes [] = Unit {0}
AreBytes (b ∷ bs) = (b < 256) × AreBytes bs

to_le_bytes-from_le_bytes :
    (bs : List ℕ) → AreBytes bs → to_le_bytes (length bs) (from_le_bytes bs) ≡ bs
unfolding to_le_bytes from_le_bytes
to_le_bytes-from_le_bytes [] h = refl
to_le_bytes-from_le_bytes (b ∷ bs) h =
    ground (arith, h.0, to_le_bytes-from_le_bytes bs h.1, digits b (from_le_bytes bs) h.0)
  where
    digits : (x y : ℕ) → x < 256 → ((x + 256 * y) % 256 ≡ x) × ((x + 256 * y) / 256 ≡ y)
    digits x y lt = omega arith

-- The registers that the context has.
abbrev pub exists : ArmRegisterId → Bool
exists (gpr rid) = ltb rid 13
exists (fpr rid) = ltb rid 32
exists _ = true

-- The numbers that `from_raw_id` knows are those of registers that exist, and the size that it
-- gives with a register is the register's.
pub from_raw_id-exists :
    (id : ℕ) (reg : ArmRegisterId) (n : ℕ)
    → from_raw_id id ≡ some (reg, n)
    → (exists reg ≡ true) × (n ≡ size reg)
unfolding from_raw_id size
from_raw_id-exists id reg n e = ground arith

pub back :
    (n : ℕ) (val : List ℕ) → length val ≡ n → AreBytes val → to_le_bytes n (from_le_bytes val) ≡ val
back n val l b =
    subst (λ k. to_le_bytes k (from_le_bytes val) ≡ val) l (to_le_bytes-from_le_bytes val b)

-- Writing the bytes of a register that exists succeeds, and reading it then gives these bytes.
pub read_register-write_register :
    (ctx : DebugEventContext) (reg : ArmRegisterId) (val : List ℕ)
    → length ctx.registers ≡ 13
    → length ctx.vfp_registers ≡ 32
    → exists reg ≡ true
    → length val ≡ size reg
    → AreBytes val
    → let (result, ctx') = write_register ctx reg val in
      (result ≡ done tt) × (read_register ctx' reg (size reg) ≡ some (done val))
unfolding write_register write_reg read_register read_entry read_reg size
read_register-write_register ctx sp val r v h l b = rw (l, back 4 val l b) (refl, refl)
read_register-write_register ctx lr val r v h l b = rw (l, back 4 val l b) (refl, refl)
read_register-write_register ctx pc val r v h l b = rw (l, back 4 val l b) (refl, refl)
read_register-write_register ctx cpsr val r v h l b = rw (l, back 4 val l b) (refl, refl)
read_register-write_register ctx fpscr val r v h l b = rw (l, back 4 val l b) (refl, refl)
read_register-write_register ctx (gpr rid) val r v h l b =
    ground (arith, h, back 4 val l b, get_elem?-set_self ctx.registers rid (from_le_bytes val))
read_register-write_register ctx (fpr rid) val r v h l b =
    ground (arith, h, back 8 val l b, get_elem?-set_self ctx.vfp_registers rid (from_le_bytes val))

-- Writing a register leaves every other one as it is.
pub read_register-other :
    (ctx : DebugEventContext) (reg reg' : ArmRegisterId) (val : List ℕ) (len : ℕ)
    → reg ≢ reg'
    → read_register ((write_register ctx reg val).1) reg' len ≡ read_register ctx reg' len
unfolding write_register write_reg read_register read_entry read_reg
read_register-other ctx (gpr i) (gpr j) val len ne =
    ground
      (arith, get_elem?-set_ne ctx.registers (from_le_bytes val) (λ (e : i ≡ j). ne (ap gpr e)))
read_register-other ctx (gpr i) reg' val len ne = ground arith
read_register-other ctx (fpr i) (fpr j) val len ne =
    ground
      (arith, get_elem?-set_ne ctx.vfp_registers (from_le_bytes val) (λ (e : i ≡ j). ne (ap fpr e)))
read_register-other ctx (fpr i) reg' val len ne = ground arith
read_register-other ctx sp reg' val len ne = ground (arith, ne)
read_register-other ctx lr reg' val len ne = ground (arith, ne)
read_register-other ctx pc reg' val len ne = ground (arith, ne)
read_register-other ctx cpsr reg' val len ne = ground (arith, ne)
read_register-other ctx fpscr reg' val len ne = ground (arith, ne)
