-- ===== src/Transport/User.antt =====
-- The serial functions that the program calls while the port is multiplexed (src/transport/mux.rs,
-- `user` and `enable_auto_muxing`). A result of -1 is `none`; the first read of the user channel
-- logs a warning.
use v5gdb.Base.{
  ℕ, Bool, true, Option, none, some, List, [], ◌∷◌, ◌>>=◌, length, ◌==◌, if◌then◌else◌,
}
use v5gdb.Cpu.Cache.{Machine}
use v5gdb.Sdk.Redirect.{Trampolines, redirect_function}
use v5gdb.Transport.Cobs.{Cobs}
use v5gdb.Transport.Serial.{SysSerial, user_channel, write_byte, write_buf, read_byte, peek_byte}
use v5gdb.Transport.Mux.{user, write_all}

-- The functions of the SDK, and those that take their place.
pub record SerialFunctions : Type 0 where
  pub write_buffer : ℕ
  pub write_char : ℕ
  pub read_char : ℕ
  pub peek_char : ℕ

unfoldable pub enable_auto_muxing :
    Trampolines → SerialFunctions → SerialFunctions → Machine → Machine
unfolding redirect_function
enable_auto_muxing p sdk own s = redirect_function p sdk.peek_char own.peek_char (
    redirect_function p sdk.read_char own.read_char (
      redirect_function p sdk.write_char own.write_char
        (redirect_function p sdk.write_buffer own.write_buffer s)))

module _ (c : Cobs) (y : SysSerial) where
  open y use {Port}

  -- The outer `none` is a panic.
  unfoldable pub write_char : ℕ → ℕ → ℕ → Port → Option (Bool × Port)
  unfolding write_byte
  write_char rounds channel b p =
      if channel == user_channel
      then (do p' ← write_all c y 1 rounds user (b ∷ []) p; some (true, p'))
      else some (write_byte y channel b p)

  unfoldable pub write_buffer : ℕ → ℕ → List ℕ → Port → Option (Option ℕ × Port)
  write_buffer rounds channel bytes p =
      if channel == user_channel
      then (do
        p' ← write_all c y (length bytes) rounds user bytes p
        some (some (length bytes), p'))
      else some (write_buf y channel bytes p)

  unfoldable pub read_char : ℕ → Port → Option ℕ × Port
  unfolding read_byte
  read_char channel p = if channel == user_channel then (none, p) else read_byte y channel p

  unfoldable pub peek_char : ℕ → Port → Option ℕ
  unfolding peek_byte
  peek_char channel p = if channel == user_channel then none else peek_byte y channel p
