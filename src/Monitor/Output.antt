-- ===== src/Monitor/Output.antt =====
-- What a monitor command prints (src/gdb_target/monitor.rs). A line is the pieces of its format
-- string and of its arguments in order; a number is not yet turned to digits.
use v5gdb.Base.{ℕ, String, Option, List, [], ◌∷◌}
use v5gdb.Breakpoint.Hardware.{HwBreakpointManager}
use v5gdb.Breakpoint.Software.{SwBreakpoint}

-- A number with its least width, to the right or to the left; `signed` and `float` take the bit
-- pattern of an `i32` and of an `f64`. The last three are values that derive `Debug`.
pub data Piece : Type 0 where
  text : String → Piece
  right_aligned left_aligned : ℕ → ℕ → Piece
  signed : ℕ → ℕ → Piece
  float : ℕ → Piece
  padded : ℕ → String → Piece
  slot : Option SwBreakpoint → Piece
  manager : HwBreakpointManager → Piece
  competition : ℕ → Piece

abbrev pub Line : Type 0
Line = List Piece

abbrev pub says : String → List Line
says s = (text s ∷ []) ∷ []
