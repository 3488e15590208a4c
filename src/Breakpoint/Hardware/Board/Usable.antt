-- ===== src/Breakpoint/Hardware/Board/Usable.antt =====
-- On which boards the debug hardware is set up.
use v5gdb.Base.{
  ℕ, ◌+◌, ◌/◌, ◌%◌, ◌≡◌, refl, ap, ◌∙◌, inl, inr, Bool, true, false, not, ◌&&◌, ◌||◌, Bool-cases,
  none, some, bit, if◌then◌else◌, arith,
}
use v5gdb.Cpu.Debug.{DebugLogic}
use v5gdb.Cpu.Debug.Raw.{debug_id_of_raw, is_valid, mmio_base, with_secure_user_invasive_debug}
use v5gdb.Cpu.Vmsa.{with_manager_domain_access}
use v5gdb.Breakpoint.Hardware.{HwBreakpointManager, locked}
use v5gdb.Breakpoint.Hardware.Reset.{IsIdle, setup-IsIdle}
use v5gdb.Breakpoint.Hardware.Board.{
  DevCfg, BoardRegisters, enable_board, set_up_logic, setup_board,
}

-- Debugging can be enabled: the bits are not locked, or locked as enabled.
abbrev pub can_debug : DevCfg → Bool
can_debug cfg =
    not cfg.debug_lock || (cfg.invasive_debug_enable && cfg.secure_invasive_debug_enable)

abbrev pub is_usable : BoardRegisters → Bool
is_usable r = can_debug r.devcfg && (is_valid r.dbgdrar && is_valid r.dbgdsar)

-- What is left on a board that can be used.
pub record IsSetUp (r : BoardRegisters) (m : HwBreakpointManager) (r' : BoardRegisters)
    : Type 0 where
  pub idle : IsIdle m
  pub num : m.capabilities.num_breakpoints ≡ r.dbgdidr / 16777216 % 16 + 1
  pub is_locked : locked m ≡ true
  pub invasive : r'.devcfg.invasive_debug_enable ≡ true
  pub secure : r'.devcfg.secure_invasive_debug_enable ≡ true
  pub user : bit r'.sder 1 ≡ true
  pub other_bits : r'.sder / 2 ≡ r.sder / 2
  pub same_domains : r'.mmu ≡ r.mmu

enable_board-enabled : (r : BoardRegisters) → (enable_board r).0 ≡ can_debug r.devcfg
unfolding enable_board with_manager_domain_access
enable_board-enabled r = ground arith

set_up_logic_returns :
    (logic_at : ℕ → DebugLogic) (r : BoardRegisters)
    → r.devcfg.invasive_debug_enable ≡ true
    → r.devcfg.secure_invasive_debug_enable ≡ true
    → (m : HwBreakpointManager) × (r' : BoardRegisters) × (set_up_logic logic_at r ≡ some (m, r'))
      × IsSetUp r m r'
unfolding set_up_logic
set_up_logic_returns logic_at r inv sec =
    let (m, e, idle, num, lock) =
      setup-IsIdle (debug_id_of_raw r.dbgdidr) (logic_at (mmio_base r.dbgdrar r.dbgdsar))
        (omega arith) (omega arith) in
    (
      m,
      record r { sder = with_secure_user_invasive_debug r.sder true },
      rw e refl,
      record {
        idle = idle;
        num = num;
        is_locked = lock;
        invasive = inv;
        secure = sec;
        user = ground arith;
        other_bits = omega arith;
        same_domains = refl;
      },
    )

-- Debugging is enabled if it can be, and then both bits are set.
enabled_bits :
    (r : BoardRegisters)
    → can_debug r.devcfg ≡ true
    → let cfg = (enable_board r).1.devcfg in
      (cfg.invasive_debug_enable ≡ true) × (cfg.secure_invasive_debug_enable ≡ true)
unfolding enable_board
enabled_bits r h = elim (Bool-cases r.devcfg.debug_lock) [
  | inl e ↦ (ground (arith, e, h), ground (arith, e, h))
  | inr e ↦ (ground (arith, e), ground (arith, e))
]

by_usable :
    (logic_at : ℕ → DebugLogic) (r : BoardRegisters) (b : Bool)
    → is_usable r ≡ b
    → setup_board logic_at r ≡ (if b then set_up_logic logic_at (enable_board r).1 else none)
unfolding setup_board
by_usable logic_at r b h =
    ap (λ c. if c then set_up_logic logic_at (enable_board r).1 else none)
      (ap (λ c. c && (is_valid r.dbgdrar && is_valid r.dbgdsar)) (enable_board-enabled r) ∙ h)

-- `setup` of the hardware debugging panics exactly on a board whose operating system has locked the
-- debug bits as disabled, or whose debug registers are not in memory. On every other board it
-- gives a locked manager of all the processor's breakpoints, none of them enabled or in use; both
-- debug bits are then enabled, as is secure user debugging, the other bits of that register and
-- the access to memory domains are as they were.
pub setup_board_returns :
    (logic_at : ℕ → DebugLogic) (r : BoardRegisters)
    → (is_usable r ≡ false → setup_board logic_at r ≡ none)
      × (is_usable r ≡ true
          → (m : HwBreakpointManager) × (r' : BoardRegisters) × (setup_board logic_at r
              ≡ some (m, r'))
            × IsSetUp r m r')
unfolding enable_board
setup_board_returns logic_at r =
    let r' = (enable_board r).1 in
    (
      λ unusable. by_usable logic_at r false unusable,
      λ usable.
          let can : can_debug r.devcfg ≡ true = ground (arith, usable) in
          let (inv, sec) = enabled_bits r can in
          let (m, r'', e, done) = set_up_logic_returns logic_at r' inv sec in
          (
            m,
            r'',
            by_usable logic_at r true usable ∙ e,
            record {
              idle = done.idle;
              num = done.num;
              is_locked = done.is_locked;
              invasive = done.invasive;
              secure = done.secure;
              user = done.user;
              other_bits = done.other_bits;
              same_domains = done.same_domains;
            },
          ),
    )
