-- ===== src/Monitor/Command.antt =====
-- The dispatch of a monitor command (`handle_monitor_cmd` of src/gdb_target/monitor.rs).
pub mod Calls
pub mod Mode
pub mod Effect
use v5gdb.Base.{
  ℕ, zero, suc, String, ◌<>◌, ◌is◌, Bool, true, false, ◌||◌, Option, none, some, List, [], ◌∷◌,
  ◌++◌, ◌>>=◌, if◌then◌else◌,
}
use v5gdb.Breakpoint.Software.{SwBreakpoint}
use v5gdb.Sdk.Competition.{CompArgument, comp, read_override}
use v5gdb.Sdk.Motors.{stop_all_motors}
use v5gdb.Target.{V5Target}
use v5gdb.Monitor.Output.{Piece, text, right_aligned, slot, manager, competition, Line, says}
use v5gdb.Monitor.Words.{
  Command, stop, autostop, dev, batt, ctrl, comp_cmd, dbg, log, sys, help, unknown, command,
  comp_argument, help_msg,
}
use v5gdb.Monitor.Controller.{ControllerId, ControllerStatus, ControllerIndex, controller, battery}
use v5gdb.Monitor.Devices.{DeviceType, devices}

-- What the command reads from outside: the SDK's reports, the levels of the crate `log` by their
-- names, the operating system's own commands, and the version of the build.
pub record Board : Type 0 where
  pub motor_ports : List (Option ℕ)
  pub device_types : List DeviceType
  pub controller_status : ControllerId → ControllerStatus
  pub controller_get : ControllerId → ControllerIndex → ℕ
  pub millivolts : ℕ
  pub milliamps : ℕ
  pub temperature : ℕ
  pub capacity : ℕ
  pub real : ℕ
  pub level_from_str : String → Option ℕ
  pub system_cmd : List String → List Line
  pub version : String

-- What it may change: the target, the override of the competition status, the level of log messages
-- and the voltages of motors, of which the list holds the calls.
pub record Monitored : Type 0 where
  pub target : V5Target
  pub override : ℕ
  pub max_level : ℕ
  pub voltages : List (ℕ × ℕ)

unfoldable pub autostop_cmd : List String → Monitored → List Line × Monitored
autostop_cmd [] s = (
  says (
      "Please include valid arguments this includes: \n"
      <> "`autostop ?`                Show whether auto-stop on breakpoint is enabled.\n"
      <> "`autostop (true | false)`   Enable or disable automatic motor stop on breakpoint."),
  s,
)
autostop_cmd (w ∷ args) s =
    if w is "true"
    then (
      says (
          "auto motor-stop on breakpoint: ENABLED.\n"
          <> "All motors will be stopped immediately whenever a breakpoint fires."),
      record s { target = record (s.target) { stop_motors_on_break = true } },
    )
    else if w is "false"
    then (
      says "Auto motor-stop on breakpoint: DISABLED.",
      record s { target = record (s.target) { stop_motors_on_break = false } },
    )
    else if w is "?"
    then (
      says (
          "Auto motor-stop on breakpoint: "
          <> (if s.target.stop_motors_on_break then "ENABLED" else "DISABLED")
          <> ".\nUse `monitor autostop true` or `monitor autostop false` to change the state."),
      s,
    )
    else (
      says (
          "Unknown argument '" <> w
          <> "'. Use 'true' or 'false' or '?'.\nExample: `monitor autostop true`"),
      s,
    )

-- The override that is in force, and the status that VEXos reports
unfoldable pub comp_state : ℕ → ℕ → List Line
unfolding read_override
comp_state real override = elim (read_override override) [
  | some overridden ↦
      (text "override: " ∷ competition overridden ∷ [])
      ∷ (text "real: " ∷ competition real ∷ [])
      ∷ []
  | none ↦ (text "status: " ∷ competition real ∷ []) ∷ []
]

unfoldable pub comp_words : ℕ → List String → Monitored → List Line × Monitored
unfolding comp_argument comp_state comp
comp_words real [] s = (comp_state real s.override, s)
comp_words real (w ∷ args) s = elim (comp_argument w) [
  | none ↦ (says "Unknown competition state type", s)
  | some arg ↦ ([], record s { override = comp arg real s.override })
]

-- The slots of breakpoints, from number `i` on
unfoldable pub slot_lines : ℕ → List (Option SwBreakpoint) → List Line
slot_lines i [] = []
slot_lines i (b ∷ breaks) =
    (right_aligned 2 i ∷ text ": " ∷ slot b ∷ []) ∷ slot_lines (suc i) breaks

unfoldable pub dbg_lines : List String → V5Target → List Line
unfolding slot_lines
dbg_lines [] t = says "Please specify a subcommand."
dbg_lines (w ∷ args) t =
    if w is "break"
    then slot_lines 0 t.breaks
    else if w is "hw"
    then (manager t.hw_manager ∷ []) ∷ []
    else says "Unknown subcommand. See 'monitor help' for more info."

unfoldable pub log_cmd : (String → Option ℕ) → List String → Monitored → List Line × Monitored
log_cmd level_from_str [] s = (says "Expected off/trace/debug/info/warn/error.", s)
log_cmd level_from_str (w ∷ args) s = elim (level_from_str w) [
  | none ↦ (says "Expected off/trace/debug/info/warn/error.", s)
  | some level ↦ ([], record s { max_level = level })
]

abbrev pub first : List String → Option String
first [] = none
first (w ∷ args) = some w

-- One branch of the dispatch, with the words that are left.
unfoldable pub run_command : Board → Command → List String → Monitored → List Line × Monitored
unfolding autostop_cmd comp_words dbg_lines log_cmd stop_all_motors controller devices
run_command b stop args s = (
  says "All motors stopped.",
  record s { voltages = s.voltages ++ stop_all_motors b.motor_ports },
)
run_command b autostop args s = autostop_cmd args s
run_command b dev args s = (devices b.device_types, s)
run_command b batt args s = (battery b.millivolts b.milliamps b.temperature b.capacity, s)
run_command b ctrl args s = (controller b.controller_status b.controller_get (first args), s)
run_command b comp_cmd args s = comp_words b.real args s
run_command b dbg args s = (dbg_lines args s.target, s)
run_command b log args s = log_cmd b.level_from_str args s
run_command b sys args s = (b.system_cmd args, s)
run_command b help args s = (
  says ("v5gdb debug server, version " <> b.version <> "\n" <> help_msg)
      ++ b.system_cmd ("help" ∷ []),
  s,
)
run_command b unknown args s = (says "Unknown command. See 'monitor help' for more info.", s)

-- `handle_monitor_cmd`, on the words between white space; bytes that are not UTF-8 have none.
unfoldable pub handle_monitor_cmd : Board → List String → Monitored → List Line × Monitored
unfolding command run_command
handle_monitor_cmd b [] s = run_command b help [] s
handle_monitor_cmd b (cmd ∷ args) s = run_command b (command cmd) args s
