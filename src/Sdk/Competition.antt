-- ===== src/Sdk/Competition.antt =====
-- Overriding the competition status (src/sdk/competition.rs, and the `comp` command of
-- src/gdb_target/monitor.rs). A status is its raw value; the status that VEXos reports is a parameter.
pub mod Override
use v5gdb.Base.{
  ℕ, String, ◌+◌, ◌-◌, ◌*◌, ◌/◌, ◌%◌, Bool, true, false, Option, none, some, bit, with_bit, weigh,
  ◌==◌, if◌then◌else◌,
}

-- `disabled`, `autonomous`, `connected`, `system` and `_gdb_override`, by their weights.
abbrev pub disabled_bit : ℕ
disabled_bit = 1

abbrev pub autonomous_bit : ℕ
autonomous_bit = 2

abbrev pub connected_bit : ℕ
connected_bit = 4

abbrev pub system_bit : ℕ
system_bit = 8

abbrev pub gdb_override_bit : ℕ
gdb_override_bit = 2147483648

-- The two parts of what `Debug` prints of a status
abbrev pub shown_mode : ℕ → String
shown_mode s =
    if bit s disabled_bit
    then "disabled"
    else if bit s autonomous_bit
    then "autonomous"
    else "opcontrol"

abbrev pub shown_system : ℕ → String
shown_system s =
    if bit s connected_bit
    then (if bit s system_bit then "field-control" else "competition-switch")
    else "disconnected"

-- `set_override`: the new value of `COMP_STATUS_OVERRIDE`.
unfoldable pub set_override : Option ℕ → ℕ
set_override (some status) = with_bit status gdb_override_bit true
set_override none = 0

unfoldable pub read_override : ℕ → Option ℕ
read_override override =
    if bit override gdb_override_bit then some (with_bit override gdb_override_bit false) else none

-- `read_status`, which the program calls in place of `vexCompetitionStatus`.
unfoldable pub read_status : ℕ → ℕ → ℕ
unfolding read_override
read_status real override = elim (read_override override) [ some status ↦ status | none ↦ real ]

-- The arguments of `comp` that change the override.
pub data CompArgument : Type 0 where
  driver auton disabled : CompArgument
  disconnected field_control switch : CompArgument
  real_status : CompArgument

-- The status that an argument asks for, from the one that the program sees.
unfoldable pub comp_status : CompArgument → ℕ → Option ℕ
comp_status driver s = some (with_bit (with_bit s disabled_bit false) autonomous_bit false)
comp_status auton s = some (with_bit (with_bit s disabled_bit false) autonomous_bit true)
comp_status disabled s = some (with_bit (with_bit s disabled_bit true) autonomous_bit false)
comp_status disconnected s = some (with_bit (with_bit s connected_bit false) system_bit false)
comp_status field_control s = some (with_bit (with_bit s connected_bit true) system_bit true)
comp_status switch s = some (with_bit (with_bit s connected_bit true) system_bit false)
comp_status real_status s = none

-- `comp` with such an argument: the override that it leaves.
unfoldable pub comp : CompArgument → ℕ → ℕ → ℕ
unfolding comp_status read_status set_override
comp arg real override = set_override (comp_status arg (read_status real override))
