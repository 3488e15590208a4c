-- ===== src/Target/Saved.antt =====
-- The value of one register of a thread that is not running (`SavedRegister` of
-- src/gdb_target/single_register_access.rs). `none` of an `unwrap` or of a copy is a panic.
use v5gdb.Base.{
  ℕ, Option, none, some, List, length, ◌==◌, if◌then◌else◌, to_le_bytes, from_le_bytes,
}

pub data SavedRegister : Type 0 where
  u32 u64 : ℕ → SavedRegister

-- `SavedRegister::from_le_bytes`
unfoldable pub from_le_bytes_checked : List ℕ → Option SavedRegister
from_le_bytes_checked buf =
    if length buf == 8
    then some (u64 (from_le_bytes buf))
    else if length buf == 4
    then some (u32 (from_le_bytes buf))
    else none

abbrev pub unwrap_u32 : SavedRegister → Option ℕ
unwrap_u32 (u32 v) = some v
unwrap_u32 (u64 v) = none

abbrev pub unwrap_u64 : SavedRegister → Option ℕ
unwrap_u64 (u64 v) = some v
unwrap_u64 (u32 v) = none

-- `bytes`
abbrev pub num_bytes : SavedRegister → ℕ
num_bytes (u32 v) = 4
num_bytes (u64 v) = 8

-- `write_to_buffer`, into a buffer of the length; a copy between different lengths panics.
unfoldable pub write_to_buffer : SavedRegister → ℕ → Option (List ℕ)
unfolding to_le_bytes
write_to_buffer (u32 v) len = if len == 4 then some (to_le_bytes 4 v) else none
write_to_buffer (u64 v) len = if len == 8 then some (to_le_bytes 8 v) else none
