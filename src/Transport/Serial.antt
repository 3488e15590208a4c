-- ===== src/Transport/Serial.antt =====
-- The serial port of the SDK (src/sdk/mod.rs, `serial`), with the functions of the system as
-- parameters.
pub mod Sent
use v5gdb.Base.{
  ℕ, zero, suc, Bool, true, false, not, Option, none, some, List, [], ◌∷◌, length, drop, min, ◌==◌,
  if◌then◌else◌,
}

-- `OUT_BUF_SIZE`
abbrev pub out_buf_size : ℕ
out_buf_size = 2048

-- `Channel::USER`
abbrev pub user_channel : ℕ
user_channel = 1

-- The system's entries of the jump table, on a state of their own; `none` is the result -1.
pub record SysSerial : Type 1 where
  pub Port : Type 0
  pub sys_write_char : ℕ → ℕ → Port → ℕ × Port
  pub sys_write_buf : ℕ → List ℕ → Port → Option ℕ × Port
  pub sys_read : ℕ → Port → Option ℕ × Port
  pub sys_peek : ℕ → Port → Option ℕ
  pub sys_write_free : ℕ → Port → Option ℕ
  pub tasks_run : Port → Port

-- How a loop that waits for the port stands: at its end, or out of rounds.
pub data Wrote (A : Type 0) : Type 0 where
  done failed waits : A → Wrote A

module _ (y : SysSerial) where
  open y use {Port, sys_write_char, sys_write_buf, sys_read, sys_peek, sys_write_free, tasks_run}

  unfoldable pub write_byte : ℕ → ℕ → Port → Bool × Port
  write_byte channel byte p = let (r, p') = sys_write_char channel byte p in (not (r == 0), p')

  -- `write_buf`, and `write` of a slice
  abbrev pub write_buf : ℕ → List ℕ → Port → Option ℕ × Port
  write_buf channel bytes p = sys_write_buf channel bytes p

  unfoldable pub read_byte : ℕ → Port → Option ℕ × Port
  read_byte channel p = sys_read channel p

  unfoldable pub peek_byte : ℕ → Port → Option ℕ
  peek_byte channel p = sys_peek channel p

  unfoldable pub write_buf_capacity : ℕ → Port → Option ℕ
  write_buf_capacity channel p = sys_write_free channel p

  -- `write_all`, for as many rounds
  unfoldable pub write_all : ℕ → ℕ → List ℕ → Port → Wrote Port
  write_all zero channel bytes p = waits p
  write_all (suc rounds) channel bytes p =
      let (written, p') = write_buf channel bytes p in
      elim written [
        | none ↦ failed p'
        | some n ↦ elim (drop (min n (length bytes)) bytes) [
          | [] ↦ done p'
          | b ∷ bs ↦ write_all rounds channel (b ∷ bs) (tasks_run p')
        ]
      ]
