-- ===== src/Install/Once.antt =====
-- The debugger is installed once.
use v5gdb.Base.{◌%◌, ◌≡◌, refl, true, false, Option, none, some}
use v5gdb.Install.Vectors.{VectorState, save_original}
use v5gdb.Install.Vectors.Chain.{IsChained, installed, first_installed}
use v5gdb.Install.{
  Globals, Program, install_by_ref, debug_event_hook, log_init, new_debugger, call_once,
  install_stdio, install_custom,
}

-- The two installers of the C interface
pub data Installer : Type 0 where
  stdio custom : Installer

module _ (p : Program) where
  open p use {D, W, T}

  abbrev pub install : Installer → T → Globals D → W → Option (Globals D × W)
  install stdio = install_stdio p
  install custom = install_custom p

  -- Nothing is installed yet.
  pub record IsFresh (g : Globals D) : Type 0 where
    pub no_debugger : g.debugger ≡ none
    pub buffer_free : g.packet_buffer_taken ≡ false
    pub no_logger : g.logger_set ≡ false
    pub empty_cells : (g.stdio_cell ≡ none) × (g.custom_cell ≡ none)
    pub vectors_unknown : g.vectors.original_vector_addresses_set ≡ false

  -- The debugger's vectors are in force, with the program's behind them, their hook calls this
  -- debugger, and no other can be installed.
  pub record IsInstalled (before : VectorState) (d : D) (g : Globals D) : Type 0 where
    pub in_force : IsChained p.table before g.vectors
    pub answers : (w : W) → debug_event_hook p g w ≡ p.handle_debug_event d w
    pub no_other : (d' : D) (w : W) → install_by_ref p d' g w ≡ none
    pub no_installer : (i : Installer) (t : T) (w : W) → install i t g w ≡ none

  done-IsInstalled :
      (before : VectorState) (d : D) (g : Globals D)
      → IsChained p.table before g.vectors
      → g.debugger ≡ some d
      → g.logger_set ≡ true
      → IsInstalled before d g
  unfolding debug_event_hook install_by_ref install_stdio install_custom log_init
  done-IsInstalled before d g c e l = record {
    in_force = c;
    answers = λ w. rw e refl;
    no_other = λ d' w. rw e refl;
    no_installer = each;
  }
    where
      each : (i : Installer) (t : T) (w : W) → install i t g w ≡ none
      each stdio t w = rw l refl
      each custom t w = rw l refl

  -- The first of all installations, through either installer of the C interface, succeeds if the
  -- debugger can be made and initialized, its vector table is aligned to 32 bytes and the original
  -- vectors are not known yet. The debugger's vector table is then in force, the addresses that
  -- exceptions go on to are the vectors that were in force before, the function that the abort
  -- handlers call passes debug events to this debugger, and every further installation panics,
  -- through either installer or by reference.
  pub install_once :
      (i : Installer) (t : T) (g : Globals D) (w w1 w2 : W) (d : D)
      → IsFresh g
      → p.table % 32 ≡ 0
      → p.new t w ≡ some (d, w1)
      → p.initialize d w1 ≡ some w2
      → (g' : Globals D) × (install i t g w ≡ some (g', w2)) × IsInstalled g.vectors d g'
  unfolding install_stdio install_custom log_init call_once new_debugger install_by_ref
  install_once stdio t g w w1 w2 d f h e n =
      let v = record (save_original g.vectors) { vbar = p.table } in
      (
        record g {
          debugger = some d;
          vectors = v;
          packet_buffer_taken = true;
          logger_set = true;
          stdio_cell = some d;
        },
        rw
            (
              f.no_logger,
              f.empty_cells.0,
              f.buffer_free,
              e,
              f.no_debugger,
              installed p.table g.vectors h,
              n,
            )
            refl,
        done-IsInstalled g.vectors d
            (record g {
              debugger = some d;
              vectors = v;
              packet_buffer_taken = true;
              logger_set = true;
              stdio_cell = some d;
            })
            (first_installed p.table g.vectors f.vectors_unknown) refl refl,
      )
  install_once custom t g w w1 w2 d f h e n =
      let v = record (save_original g.vectors) { vbar = p.table } in
      (
        record g {
          debugger = some d;
          vectors = v;
          packet_buffer_taken = true;
          logger_set = true;
          custom_cell = some d;
        },
        rw
            (
              f.no_logger,
              f.empty_cells.1,
              f.buffer_free,
              e,
              f.no_debugger,
              installed p.table g.vectors h,
              n,
            )
            refl,
        done-IsInstalled g.vectors d
            (record g {
              debugger = some d;
              vectors = v;
              packet_buffer_taken = true;
              logger_set = true;
              custom_cell = some d;
            })
            (first_installed p.table g.vectors f.vectors_unknown) refl refl,
      )
