-- ===== src/Arch.antt =====
-- The ARMv7 architecture as GDB numbers it (src/gdb_target/arch/mod.rs).
use v5gdb.Base.{ℕ, ◌-◌, Bool, true, false, Option, none, some, leb, ◌==◌, ◌&&◌, if◌then◌else◌}

pub data ArmBreakpointKind : Type 0 where
  kind_thumb16 kind_thumb32 kind_arm32 : ArmBreakpointKind

-- `BreakpointKind::from_usize`
unfoldable pub from_usize : ℕ → Option ArmBreakpointKind
from_usize kind =
    if kind == 2
    then some kind_thumb16
    else if kind == 3
    then some kind_thumb32
    else if kind == 4
    then some kind_arm32
    else none

-- `matches!(kind, ArmBreakpointKind::Arm32)`
abbrev pub is_arm32 : ArmBreakpointKind → Bool
is_arm32 kind_arm32 = true
is_arm32 _ = false

pub data ArmRegisterId : Type 0 where
  gpr : ℕ → ArmRegisterId
  sp lr pc cpsr : ArmRegisterId
  fpr : ℕ → ArmRegisterId
  fpscr : ArmRegisterId

-- `ArmRegisterID::size`, in bytes
unfoldable pub size : ArmRegisterId → ℕ
size (fpr _) = 8
size _ = 4

-- `RegId::from_raw_id`
unfoldable pub from_raw_id : ℕ → Option (ArmRegisterId × ℕ)
unfolding size
from_raw_id id =
    if leb id 12
    then sized (gpr id)
    else if id == 13
    then sized sp
    else if id == 14
    then sized lr
    else if id == 15
    then sized pc
    else if id == 25
    then sized cpsr
    else if leb 26 id && leb id 57
    then sized (fpr (id - 26))
    else if id == 58
    then sized fpscr
    else none
  where
    sized : ArmRegisterId → Option (ArmRegisterId × ℕ)
    sized reg = some (reg, size reg)
