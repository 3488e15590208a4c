-- ===== src/Install.antt =====
-- Installing the debugger (src/lib.rs, the hooks of src/exceptions/mod.rs, and the installers of the C
-- interface, src/ffi/src/lib.rs of the repository's ffi). `none` is a panic.
pub mod Vectors
pub mod Once
use v5gdb.Base.{ℕ, Bool, true, false, Option, none, some, ◌>>=◌, if◌then◌else◌}
use v5gdb.Install.Vectors.{VectorState, install_vectors}

-- The statics: the debugger that is installed, the vectors, whether the packet buffer is taken and a
-- logger set, and the cells of the two installers.
pub record Globals (D : Type 0) : Type 0 where
  pub debugger : Option D
  pub vectors : VectorState
  pub packet_buffer_taken : Bool
  pub logger_set : Bool
  pub stdio_cell : Option D
  pub custom_cell : Option D

-- What the installers call: `initialize` and `handle_debug_event` of a debugger, on the rest of the
-- machine, what `V5Debugger::new` gives for a transport once it has the packet buffer, and the
-- address of the debugger's vector table.
pub record Program : Type 1 where
  pub D : Type 0
  pub W : Type 0
  pub T : Type 0
  pub initialize : D → W → Option W
  pub handle_debug_event : D → W → Option (Bool × W)
  pub new : T → W → Option (D × W)
  pub table : ℕ

module _ (p : Program) where
  open p use {D, W, T}

  -- `install_by_ref`
  unfoldable pub install_by_ref : D → Globals D → W → Option (Globals D × W)
  unfolding install_vectors
  install_by_ref d g w = elim g.debugger [
    | some _ ↦ none
    | none ↦ do
      v ← install_vectors p.table g.vectors
      w' ← p.initialize d w
      some (record g { debugger = some d; vectors = v }, w')
  ]

  -- `handle_debug_event`, the function that the abort handlers call
  unfoldable pub debug_event_hook : Globals D → W → Option (Bool × W)
  debug_event_hook g w = g.debugger >>= (λ d. p.handle_debug_event d w)

  -- `V5Debugger::new`, which takes the packet buffer
  unfoldable pub new_debugger : T → Globals D → W → Option (D × Globals D × W)
  new_debugger t g w =
      if g.packet_buffer_taken
      then none
      else (do (d, w') ← p.new t w; some (d, record g { packet_buffer_taken = true }, w'))

  -- `log::init` of the C interface
  unfoldable pub log_init : Globals D → Option (Globals D)
  log_init g = if g.logger_set then none else some (record g { logger_set = true })

  -- A cell's `call_once`: its value is made the first time.
  unfoldable pub call_once : Option D → T → Globals D → W → Option (D × Globals D × W)
  unfolding new_debugger
  call_once (some d) t g w = some (d, g, w)
  call_once none t g w = new_debugger t g w

  -- `install_stdio`
  unfoldable pub install_stdio : T → Globals D → W → Option (Globals D × W)
  unfolding log_init call_once install_by_ref
  install_stdio t g w = do
    g1 ← log_init g
    (d, g2, w2) ← call_once g1.stdio_cell t g1 w
    install_by_ref d (record g2 { stdio_cell = some d }) w2

  -- `install_custom`
  unfoldable pub install_custom : T → Globals D → W → Option (Globals D × W)
  unfolding log_init call_once install_by_ref
  install_custom t g w = do
    g1 ← log_init g
    (d, g2, w2) ← call_once g1.custom_cell t g1 w
    install_by_ref d (record g2 { custom_cell = some d }) w2
