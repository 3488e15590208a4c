-- ===== src/Target/Registers.antt =====
-- Access by GDB to one register of the stopped thread (src/gdb_target/single_register_access.rs,
-- `SingleRegisterAccess<()>`) and resuming (src/gdb_target/resume.rs).
pub mod Lens
pub mod Step
use v5gdb.Base.{
  ℕ, Bool, true, false, Option, none, some, ◌>>=◌, List, length, get_elem?, set, ltb, ◌==◌,
  if◌then◌else◌, to_le_bytes, from_le_bytes,
}
use v5gdb.Arch.{ArmRegisterId, gpr, sp, lr, pc, cpsr, fpr, fpscr}
use v5gdb.Exceptions.{DebugEventContext}
use v5gdb.Breakpoint.{Result, ok, err}
use v5gdb.Target.{V5Target, resuming_program}
use v5gdb.Target.Entry.{request_single_step}

-- `TargetResult`, as far as it is used: a value or `TargetError::NonFatal`.
pub data Access {ℓ} (A : Type ℓ) : Type ℓ where
  done : A → Access A
  non_fatal : Access A

-- `read_reg!`: the bytes of a register copied to a buffer of the given length; a copy between
-- different lengths panics.
unfoldable pub read_reg : ℕ → ℕ → ℕ → Option (Access (List ℕ))
unfolding to_le_bytes
read_reg len n reg = if len == n then some (done (to_le_bytes n reg)) else none

-- `ctx.registers.get(rid)` and the read of it
unfoldable pub read_entry : ℕ → ℕ → Option ℕ → Option (Access (List ℕ))
unfolding read_reg
read_entry len n none = some non_fatal
read_entry len n (some reg) = read_reg len n reg

unfoldable pub read_register : DebugEventContext → ArmRegisterId → ℕ → Option (Access (List ℕ))
unfolding read_entry
read_register ctx (gpr rid) len = read_entry len 4 (get_elem? ctx.registers rid)
read_register ctx sp len = read_reg len 4 ctx.stack_pointer
read_register ctx lr len = read_reg len 4 ctx.link_register
read_register ctx pc len = read_reg len 4 ctx.program_counter
read_register ctx cpsr len = read_reg len 4 ctx.cpsr
read_register ctx (fpr rid) len = read_entry len 8 (get_elem? ctx.vfp_registers rid)
read_register ctx fpscr len = read_reg len 4 ctx.fpscr

-- `write_reg!`: bytes of another length than the register's are refused.
unfoldable pub write_reg :
    ℕ → List ℕ → (ℕ → DebugEventContext) → DebugEventContext → Access (Unit {0}) × DebugEventContext
unfolding from_le_bytes
write_reg n val put ctx =
    if length val == n then (done tt, put (from_le_bytes val)) else (non_fatal, ctx)

unfoldable pub write_register :
    DebugEventContext → ArmRegisterId → List ℕ → Access (Unit {0}) × DebugEventContext
unfolding write_reg
write_register ctx (gpr rid) val =
    if ltb rid (length ctx.registers)
    then write_reg 4 val (λ v. record ctx { registers = set ctx.registers rid v }) ctx
    else (non_fatal, ctx)
write_register ctx sp val = write_reg 4 val (λ v. record ctx { stack_pointer = v }) ctx
write_register ctx lr val = write_reg 4 val (λ v. record ctx { link_register = v }) ctx
write_register ctx pc val = write_reg 4 val (λ v. record ctx { program_counter = v }) ctx
write_register ctx cpsr val = write_reg 4 val (λ v. record ctx { cpsr = v }) ctx
write_register ctx (fpr rid) val =
    if ltb rid (length ctx.vfp_registers)
    then write_reg 8 val (λ v. record ctx { vfp_registers = set ctx.vfp_registers rid v }) ctx
    else (non_fatal, ctx)
write_register ctx fpscr val = write_reg 4 val (λ v. record ctx { fpscr = v }) ctx

-- `SingleThreadResume::resume`
unfoldable pub resume : V5Target → V5Target
resume t = record t { monitor_status = resuming_program }

-- `SingleThreadSingleStep::step`; a request that fails panics.
unfoldable pub step : V5Target → Option V5Target
unfolding request_single_step resume
step t = request_single_step t >>= expect
  where
    expect : Result (Unit {0}) × V5Target → Option V5Target
    expect (err e, t') = none
    expect (ok _, t') = some (resume t')
