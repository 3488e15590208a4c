-- ===== src/Tests/Board.antt =====
-- The board, the registers and the installation at concrete inputs.
use v5gdb.Base.{ℕ, ◌≡◌, ◌↔◌, refl, true, false, none, some, [], arith}
use v5gdb.Cpu.Debug.{breakpoint_disabled, watchpoint_disabled}
use v5gdb.Cpu.Debug.Raw.{breakpoint_of_raw, breakpoint_raw, watchpoint_of_raw, watchpoint_raw}
use v5gdb.Cpu.Debug.Raw.Layout.{control_layouts}
use v5gdb.Cpu.Vmsa.Attributes.{
  mem_attrs, fits, code_of, attribute_bits, cacheable_memory, mem_attrs_iff,
}
use v5gdb.Breakpoint.Hardware.{HwBreakpointManager}
use v5gdb.Breakpoint.Hardware.Board.{BoardRegisters, setup_board}
use v5gdb.Breakpoint.Hardware.Board.Usable.{is_usable, IsSetUp, setup_board_returns}
use v5gdb.Install.{Globals, Program}
use v5gdb.Install.Once.{stdio, install, IsInstalled, install_once}
use v5gdb.Install.Vectors.{VectorState}
use v5gdb.Install.Vectors.Chain.{install_again, IsChained, AllOutside, install_again_chains}
use v5gdb.Tests.Hardware.{logic}

control_layouts_example :
    (breakpoint_of_raw (breakpoint_raw breakpoint_disabled) ≡ breakpoint_disabled)
    × (watchpoint_of_raw (watchpoint_raw watchpoint_disabled) ≡ watchpoint_disabled)
    × (breakpoint_raw (breakpoint_of_raw 0x1e7) ≡ 0x1e7)
control_layouts_example =
    control_layouts breakpoint_disabled watchpoint_disabled 0x1e7
      (omega arith, omega arith, omega arith, omega arith, omega arith, omega arith)
      (omega arith, omega arith, omega arith, omega arith, omega arith, omega arith)
      (omega arith, refl, refl)

-- Write-back memory, as VEXos maps the program's.
mem_attrs_iff_example : (mem_attrs 0x15c0e ≡ some (cacheable_memory 3 1)) ↔ (
    (fits (cacheable_memory 3 1) ≡ true)
    × (code_of (cacheable_memory 3 1) ≡ attribute_bits 0x15c0e))
mem_attrs_iff_example = mem_attrs_iff 0x15c0e (cacheable_memory 3 1)

-- Six breakpoints and four watchpoints, with the debug bits not locked.
abbrev zynq_board : BoardRegisters
zynq_board = record {
  mmu = record { ttbcr = 0; ttbr0 = 0; ttbr1 = 0; dacr = 0x55555555 };
  devcfg = record {
    debug_lock = false;
    invasive_debug_enable = false;
    secure_invasive_debug_enable = false;
  };
  sder = 2;
  dbgdrar = 0xf8800003;
  dbgdsar = 0x00090003;
  dbgdidr = 0x35137030;
}

setup_board_returns_example :
    (is_usable zynq_board ≡ false → setup_board (λ _. logic) zynq_board ≡ none)
    × (is_usable zynq_board ≡ true
        → (m : HwBreakpointManager) × (r' : BoardRegisters) × (setup_board (λ _. logic) zynq_board
            ≡ some (m, r'))
          × IsSetUp zynq_board m r')
setup_board_returns_example = setup_board_returns (λ _. logic) zynq_board

abbrev original : VectorState
original = record {
  vbar = 0x1000;
  original_vector_addresses_set = false;
  original_vector_addresses = [];
}

install_again_chains_example :
    (v' : VectorState) × (install_again 0x03800040 3 original ≡ some v')
    × IsChained 0x03800040 original v'
    × AllOutside 0x03800040 v'.original_vector_addresses
install_again_chains_example =
    install_again_chains 0x03800040 2 original refl refl (λ e. omega (arith, e))

-- The debugger is a number, and so is the rest of the machine.
abbrev program : Program
program = record {
  D = ℕ;
  W = ℕ;
  T = ℕ;
  initialize = λ d w. some d;
  handle_debug_event = λ d w. some (true, d);
  new = λ t w. some (t, w);
  table = 0x03800040;
}

abbrev fresh : Globals ℕ
fresh = record {
  debugger = none;
  vectors = original;
  packet_buffer_taken = false;
  logger_set = false;
  stdio_cell = none;
  custom_cell = none;
}

install_once_example :
    (g' : Globals ℕ) × (install program stdio 7 fresh 0 ≡ some (g', 7))
    × IsInstalled program original 7 g'
install_once_example =
    install_once program stdio 7 fresh 0 0 7 7
      (record {
        no_debugger = refl;
        buffer_free = refl;
        no_logger = refl;
        empty_cells = (refl, refl);
        vectors_unknown = refl;
      })
      refl refl refl
