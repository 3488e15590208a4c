-- ===== src/Client.antt =====
-- The command-line client (src/cli of the repository: src/bin/v5gdb.rs): it takes the frames from the
-- serial port apart. What it writes to the debugger's connection and to the standard error stream
-- is kept in lists, and writes succeed.
pub mod Frames
pub mod Loop
pub mod Start
use v5gdb.Base.{
  ℕ, zero, suc, Bool, true, false, Option, none, some, List, [], ◌∷◌, ◌++◌, ◌>>=◌, take, drop, ◌==◌,
  if◌then◌else◌,
}
use v5gdb.Transport.Cobs.{Cobs, Pushed, frame, more, invalid}

-- What was written.
pub record Outputs : Type 0 where
  pub debug_out : List ℕ
  pub user_out : List ℕ

-- `handle_packet`: whether the packet was valid.
unfoldable pub handle_packet : Outputs → List ℕ → Bool × Outputs
handle_packet o [] = (false, o)
handle_packet o (channel_byte ∷ body) =
    if channel_byte == b'u'
    then (true, record o { user_out = o.user_out ++ body })
    else if channel_byte == b'd'
    then (true, record o { debug_out = o.debug_out ++ body })
    else (false, o)

-- A packet, or the bytes of an invalid one.
unfoldable pub handle_frame : Outputs → List ℕ → List ℕ → Outputs
unfolding handle_packet
handle_frame o packet raw =
    let (was_valid, o') = handle_packet o packet in
    if was_valid then o' else record o' { user_out = o'.user_out ++ raw }

module _ (c : Cobs) where
  open c use {Decoder, reset, feed}

  -- The loop over the bytes of one read in `serve_device_serial`. `none`: the rounds are over.
  unfoldable pub decode : ℕ → Decoder → Outputs → List ℕ → Option (Decoder × Outputs)
  unfolding handle_frame
  decode rounds d o [] = some (d, o)
  decode zero d o (b ∷ bs) = none
  decode (suc rounds) d o (b ∷ bs) = elim (feed d (b ∷ bs)) [
    | frame packet parsed ↦
        decode rounds reset (handle_frame o packet (take parsed (b ∷ bs))) (drop parsed (b ∷ bs))
    | invalid ↦ decode rounds reset (record o { user_out = o.user_out ++ (b ∷ []) }) bs
    | more d' ↦ some (d', o)
  ]

  -- The reads, one after the other.
  unfoldable pub serve : ℕ → Decoder → Outputs → List (List ℕ) → Option (Decoder × Outputs)
  serve rounds d o [] = some (d, o)
  serve rounds d o (chunk ∷ chunks) = do
    (d', o') ← decode rounds d o chunk
    serve rounds d' o' chunks
