-- ===== src/Transport/Stdio.antt =====
-- The debugger's connection over the serial port (src/transport/mod.rs, `Transport` and
-- `StdioTransport`).
use v5gdb.Base.{ℕ, zero, suc, Option, none, some, List, length, ◌==◌, if◌then◌else◌}
use v5gdb.Transport.Cobs.{Cobs}
use v5gdb.Transport.Mux.{debug, write_all}
use v5gdb.Transport.Serial.{
  SysSerial, Wrote, done, failed, waits, user_channel, out_buf_size, read_byte, peek_byte,
  write_buf_capacity,
}

-- `Transport::try_read` as it is without an override, on a connection's `peek` and `read`; `none`
-- is an error.
unfoldable pub default_try_read :
    {C : Type 0} → (C → Option (Option ℕ)) → (C → Option (ℕ × C)) → C → Option (Option ℕ × C)
default_try_read peek read c = elim (peek c) [
  | none ↦ none
  | some none ↦ some (none, c)
  | some (some _) ↦ elim (read c) [ none ↦ none | some x ↦ some (some x.0, x.1) ]
]

module _ (c : Cobs) (y : SysSerial) where
  open y use {Port, tasks_run}

  -- `StdioTransport::try_read`
  unfoldable pub try_read : Port → Option ℕ × Port
  unfolding read_byte
  try_read p = read_byte y user_channel p

  unfoldable pub peek : Port → Option ℕ
  unfolding peek_byte
  peek p = peek_byte y user_channel p

  -- `read`: it waits for a byte, for as many rounds; `none` where these end.
  unfoldable pub read : ℕ → Port → Option (ℕ × Port)
  unfolding read_byte
  read zero p = none
  read (suc rounds) p =
      let (byte, p') = read_byte y user_channel p in
      elim byte [ some b ↦ some (b, p') | none ↦ read rounds (tasks_run p') ]

  -- `write` and `write_all` of the connection
  unfoldable pub write_debug : ℕ → List ℕ → Port → Option Port
  write_debug rounds bytes p = write_all c y (length bytes) rounds debug bytes p

  -- `flush_serial`; an unknown channel panics.
  unfoldable pub flush_serial : ℕ → Port → Wrote Port
  unfolding write_buf_capacity
  flush_serial zero p = waits p
  flush_serial (suc rounds) p = elim (write_buf_capacity y user_channel p) [
    | none ↦ failed p
    | some free ↦
        let rest = flush_serial rounds (tasks_run p) in
        if free == out_buf_size then done p else rest
  ]
