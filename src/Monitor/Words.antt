-- ===== src/Monitor/Words.antt =====
-- The words of the monitor commands (src/gdb_target/monitor.rs).
use v5gdb.Base.{String, ◌<>◌, ◌is◌, ◌||◌, Option, none, some, if◌then◌else◌}
use v5gdb.Sdk.Competition.{
  CompArgument, driver, auton, disabled, disconnected, field_control, switch, real_status,
}

-- The first words
pub data Command : Type 0 where
  stop autostop dev batt ctrl comp_cmd dbg log sys help unknown : Command

unfoldable pub command : String → Command
command cmd =
    if cmd is "stop"
    then stop
    else if cmd is "autostop"
    then autostop
    else if cmd is "dev" || cmd is "devices"
    then dev
    else if cmd is "batt" || cmd is "battery"
    then batt
    else if cmd is "ctrl"
    then ctrl
    else if cmd is "comp"
    then comp_cmd
    else if cmd is "dbg"
    then dbg
    else if cmd is "log"
    then log
    else if cmd is "sys"
    then sys
    else if cmd is "?" || (cmd is "h" || cmd is "help")
    then help
    else unknown

-- The words of `comp` that change the override
unfoldable pub comp_argument : String → Option CompArgument
comp_argument w =
    if w is "driver" || (w is "op" || w is "opcontrol")
    then some driver
    else if w is "auto" || (w is "auton" || w is "autonomous")
    then some auton
    else if w is "dis" || w is "disabled"
    then some disabled
    else if w is "none" || w is "disconnected"
    then some disconnected
    else if w is "fc" || w is "field-control"
    then some field_control
    else if w is "switch"
    then some switch
    else if w is "real"
    then some real_status
    else none

abbrev pub help_msg : String
help_msg =
    "\n" <> "Monitor commands:\n"
    <> "    help                                Show this help message.\n"
    <> "    stop                                Immediately stop all motors right now.\n"
    <> "    autostop ?                          Show whether auto-stop on breakpoint is enabled.\n"
    <> "    autostop (true | false)             Enable or disable automatic motor stop on breakpoint.\n"
    <> "    dev                                 List connected smart devices.\n"
    <> "    batt                                View battery status.\n"
    <> "    ctrl [partner]                      View controller state, primary (default) or partner.\n"
    <> "    comp                                View competition state.\n"
    <> "    comp (driver | auton | disabled)    Override competition mode.\n"
    <> "    comp (none | fc | switch)           Override competition system.\n"
    <> "    comp real                           Stop overriding competition state.\n"
    <> "    log [level]                         Set the current log level (off/trace/debug/info/warn/error).\n"
    <> "    dbg break                           Show internal software breakpoint status.\n"
    <> "    dbg hw                              Show internal hardware debug status.\n"
