-- ===== src/Breakpoint/Hardware/Board.antt =====
-- The whole of `HwBreakpointManager::setup` (src/gdb_target/breakpoint/hardware.rs): the debug
-- hardware of the board is enabled, and its registers are found. `none` is a panic.
pub mod Usable
use v5gdb.Base.{ℕ, ◌+◌, ◌%◌, Bool, true, false, ◌&&◌, Option, none, some, ◌>>=◌, if◌then◌else◌}
use v5gdb.Cpu.Debug.{DebugLogic}
use v5gdb.Cpu.Debug.Raw.{debug_id_of_raw, is_valid, mmio_base, with_secure_user_invasive_debug}
use v5gdb.Cpu.Vmsa.{MmuRegisters, with_manager_domain_access}
use v5gdb.Breakpoint.Hardware.{HwBreakpointManager, setup}

-- What is used of the board's `devcfg` registers: the lock of the debug bits, and these bits.
pub record DevCfg : Type 0 where
  pub debug_lock : Bool
  pub invasive_debug_enable : Bool
  pub secure_invasive_debug_enable : Bool

-- The registers that `setup` reads and writes; the last three are only read.
pub record BoardRegisters : Type 0 where
  pub mmu : MmuRegisters
  pub devcfg : DevCfg
  pub sder : ℕ
  pub dbgdrar : ℕ
  pub dbgdsar : ℕ
  pub dbgdidr : ℕ

-- The function that runs with access to all domains: whether debugging is enabled.
abbrev pub enable_debug : DevCfg → Bool × DevCfg
enable_debug cfg =
    if cfg.debug_lock
    then (cfg.invasive_debug_enable && cfg.secure_invasive_debug_enable, cfg)
    else (true, record cfg { invasive_debug_enable = true; secure_invasive_debug_enable = true })

-- The result of that function with the registers that it leaves, as the closure's captured state.
unfoldable pub enable_board : BoardRegisters → Bool × BoardRegisters
unfolding with_manager_domain_access
enable_board r =
    let ((enabled, cfg), mmu) =
      with_manager_domain_access (λ mmu. (enable_debug r.devcfg, mmu)) r.mmu in
    (enabled, record r { mmu = mmu; devcfg = cfg })

-- The part of `setup` once debugging is enabled and the registers are known to be in memory; the
-- memory-mapped debug registers at each address are an argument.
unfoldable pub set_up_logic :
    (ℕ → DebugLogic) → BoardRegisters → Option (HwBreakpointManager × BoardRegisters)
unfolding setup
set_up_logic logic_at r = do
  let secure = with_secure_user_invasive_debug r.sder true
  m ← setup (debug_id_of_raw r.dbgdidr) (logic_at (mmio_base r.dbgdrar r.dbgdsar))
  some (m, record r { sder = secure })

-- `setup`
unfoldable pub setup_board :
    (ℕ → DebugLogic) → BoardRegisters → Option (HwBreakpointManager × BoardRegisters)
unfolding enable_board set_up_logic
setup_board logic_at r =
    let (enabled, r') = enable_board r in
    if enabled && (is_valid r'.dbgdrar && is_valid r'.dbgdsar)
    then set_up_logic logic_at r'
    else none
