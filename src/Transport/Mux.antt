-- ===== src/Transport/Mux.antt =====
-- Framing of the serial output (src/transport/mux.rs), with COBS as a parameter.
pub mod Frames
use v5gdb.Base.{
  ℕ, zero, suc, ◌-◌, Bool, true, false, Option, none, some, List, [], ◌∷◌, ◌++◌, ◌>>=◌, length,
  ◌==◌, if◌then◌else◌, u32_mod,
}
use v5gdb.Transport.Cobs.{Cobs}
use v5gdb.Transport.Serial.{
  SysSerial, Wrote, done, failed, waits, out_buf_size, user_channel, write_byte, write_buf,
  read_byte, peek_byte,
}

pub data ChannelId : Type 0 where
  user debug : ChannelId

-- `channel as u8`
abbrev pub channel_byte : ChannelId → ℕ
channel_byte user = b'u'
channel_byte debug = b'd'

module _ (c : Cobs) where
  open c use {Encoder, push, finalize}

  -- The inner loop of `write_all`: as many bytes as fit. A byte that does not fit may change the
  -- encoder.
  unfoldable pub fill : Encoder → List ℕ → Encoder × List ℕ
  fill e [] = (e, [])
  fill e (b ∷ bs) =
      let (fits, e') = push e b in elim fits [ true ↦ fill e' bs | false ↦ (e', b ∷ bs) ]

  -- One round: the frame and its delimiter, and the bytes that are left. `none` is a panic.
  unfoldable pub packet : ChannelId → List ℕ → Option (List ℕ × List ℕ)
  unfolding fill
  packet channel bytes =
      let (fits, e) = push (c.new (out_buf_size - 1)) (channel_byte channel) in
      let (e', rest) = fill e bytes in if fits then some (finalize e' ++ (0 ∷ []), rest) else none

  module _ (y : SysSerial) where
    open y use {Port}

    -- `serial::write_all` of a frame; its error panics.
    unfoldable pub send : ℕ → List ℕ → Port → Option Port
    send rounds bytes p = elim (v5gdb.Transport.Serial.write_all y rounds user_channel bytes p) [
      | done p' ↦ some p'
      | failed _ ↦ none
      | waits _ ↦ none
    ]

    -- `write_all`, for as many packets, each sent in as many rounds; `none` also where these end.
    unfoldable pub write_all : ℕ → ℕ → ChannelId → List ℕ → Port → Option Port
    write_all packets rounds channel [] p = some p
    write_all zero rounds channel (b ∷ bs) p = none
    write_all (suc packets) rounds channel (b ∷ bs) p = do
      (bytes, rest) ← packet channel (b ∷ bs)
      p' ← send rounds bytes p
      write_all packets rounds channel rest p'
