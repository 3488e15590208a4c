-- ===== src/Client/Loop/Directions.antt =====
-- The two directions of the client's loop do not disturb each other.
use v5gdb.Base.{
  ℕ, ◌≡◌, refl, sym, ◌∙◌, ap, true, false, Option, none, some, List, [], ◌∷◌, ◌++◌, ◌>>=◌,
}
use mathlib.Core.List.{append_assoc, append-nil}
use v5gdb.Transport.Cobs.{Cobs}
use v5gdb.Client.{Outputs, decode, serve}
use v5gdb.Client.Loop.{
  Happening, device_bytes, device_error, gdb_closed, gdb_error, gdb_bytes, serve_loop,
}

-- What happens before GDB goes away or the device does not take its bytes.
abbrev pub until_break : List Happening → List Happening
until_break [] = []
until_break (gdb_closed ∷ hs) = []
until_break (gdb_bytes bytes false ∷ hs) = []
until_break (h ∷ hs) = h ∷ until_break hs

-- What the device sent, read by read.
abbrev pub from_device : List Happening → List (List ℕ)
from_device [] = []
from_device (device_bytes chunk ∷ hs) = chunk ∷ from_device hs
from_device (_ ∷ hs) = from_device hs

-- What GDB sent, as one text.
abbrev pub from_gdb : List Happening → List ℕ
from_gdb [] = []
from_gdb (gdb_bytes bytes _ ∷ hs) = bytes ++ from_gdb hs
from_gdb (_ ∷ hs) = from_gdb hs

module _ (c : Cobs) where
  open c use {Decoder}

  -- The client's outputs, beside what the device got.
  abbrev pub beside : List ℕ → Option (Decoder × Outputs) → Option (Decoder × Outputs × List ℕ)
  beside input none = none
  beside input (some (d, o)) = some (d, o, input)

  -- The loop of the client does two things that do not disturb each other, in whatever order the reads
  -- of the device and of GDB happen: its outputs are those of the device's reads alone, one after
  -- the other, and the device is sent the bytes of GDB's reads alone, in order; both up to the
  -- point where GDB closes the connection or the device does not take its bytes.
  pub serve_loop_lem :
      (rounds : ℕ) (d : Decoder) (o : Outputs) (input : List ℕ) (hs : List Happening)
      → serve_loop c rounds d o input hs
        ≡ beside
            (input ++ from_gdb (until_break hs))
            (serve c rounds d o (from_device (until_break hs)))
  unfolding serve_loop serve
  serve_loop_lem rounds d o input [] = ap (λ l. some (d, o, l)) (sym (append-nil input))
  serve_loop_lem rounds d o input (device_error ∷ hs) = serve_loop_lem rounds d o input hs
  serve_loop_lem rounds d o input (gdb_error ∷ hs) = serve_loop_lem rounds d o input hs
  serve_loop_lem rounds d o input (gdb_closed ∷ hs) =
      ap (λ l. some (d, o, l)) (sym (append-nil input))
  serve_loop_lem rounds d o input (gdb_bytes bytes false ∷ hs) =
      ap (λ l. some (d, o, l)) (sym (append-nil input))
  serve_loop_lem rounds d o input (gdb_bytes bytes true ∷ hs) =
      serve_loop_lem rounds d o (input ++ bytes) hs
      ∙ ap (λ l. beside l (serve c rounds d o (from_device (until_break hs))))
          (append_assoc input bytes (from_gdb (until_break hs)))
  serve_loop_lem rounds d o input (device_bytes chunk ∷ hs) =
      decoded (decode c rounds d o chunk) (λ d' o'. serve_loop_lem rounds d' o' input hs)
    where
      decoded :
          (r : Option (Decoder × Outputs))
          → ((d' : Decoder) (o' : Outputs)
              → serve_loop c rounds d' o' input hs
                ≡ beside
                    (input ++ from_gdb (until_break hs))
                    (serve c rounds d' o' (from_device (until_break hs))))
          → (r >>= (λ (d', o'). serve_loop c rounds d' o' input hs))
            ≡ beside
                (input ++ from_gdb (until_break hs))
                (r >>= (λ (d', o'). serve c rounds d' o' (from_device (until_break hs))))
      decoded none step = refl
      decoded (some (d', o')) step = step d' o'
