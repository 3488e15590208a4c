-- ===== src/Client/Loop.antt =====
-- The loop of `serve_device_serial` (src/cli of the repository: src/bin/v5gdb.rs), in both directions.
-- What its `select!` meets, one after the other, is a list; what is written to the device is kept.
pub mod Directions
use v5gdb.Base.{ℕ, Bool, true, false, Option, none, some, List, [], ◌∷◌, ◌++◌, ◌>>=◌, if◌then◌else◌}
use v5gdb.Transport.Cobs.{Cobs}
use v5gdb.Client.{Outputs, decode}

-- A read of the device, or of GDB's connection. The bytes of GDB, which are not none, come with
-- whether the write to the device succeeds.
pub data Happening : Type 0 where
  device_bytes : List ℕ → Happening
  device_error gdb_closed gdb_error : Happening
  gdb_bytes : List ℕ → Bool → Happening

module _ (c : Cobs) where
  open c use {Decoder}

  -- The loop, until it breaks or what happens ends. `none`: the rounds of a read are over.
  unfoldable pub serve_loop :
      ℕ → Decoder → Outputs → List ℕ → List Happening → Option (Decoder × Outputs × List ℕ)
  unfolding decode
  serve_loop rounds d o input [] = some (d, o, input)
  serve_loop rounds d o input (device_bytes chunk ∷ hs) = do
    (d', o') ← decode c rounds d o chunk
    serve_loop rounds d' o' input hs
  serve_loop rounds d o input (device_error ∷ hs) = serve_loop rounds d o input hs
  serve_loop rounds d o input (gdb_closed ∷ hs) = some (d, o, input)
  serve_loop rounds d o input (gdb_error ∷ hs) = serve_loop rounds d o input hs
  serve_loop rounds d o input (gdb_bytes bytes written ∷ hs) =
      let rest = serve_loop rounds d o (input ++ bytes) hs in
      if written then rest else some (d, o, input)
