-- ===== src/Tests/Monitor.antt =====
-- The monitor commands at concrete inputs.
use v5gdb.Base.{◌≡◌, refl, true, none, some, List, [], ◌∷◌, arith}
use v5gdb.Sdk.Competition.{auton, read_status}
use v5gdb.Target.{V5Target}
use v5gdb.Monitor.Output.{says}
use v5gdb.Monitor.Controller.{tethered}
use v5gdb.Monitor.Devices.{DeviceType, motor_sensor, no_sensor, imu_sensor, undefined_sensor}
use v5gdb.Monitor.Command.{Board, Monitored, handle_monitor_cmd}
use v5gdb.Monitor.Command.Effect.{Effect}
use v5gdb.Monitor.Command.Mode.{shown, shown_after, handle_monitor_cmd_overrides}
use v5gdb.Tests.Hardware.{running}

-- Motors on ports 1 and 3, a sensor on port 4, and no further port.
abbrev types : List DeviceType
types = motor_sensor ∷ no_sensor ∷ motor_sensor ∷ imu_sensor ∷ undefined_sensor ∷ motor_sensor ∷ []

abbrev board : Board
board = record {
  motor_ports = some 100 ∷ none ∷ some 300 ∷ [];
  device_types = types;
  controller_status = λ _. tethered;
  controller_get = λ _ _. 0;
  millivolts = 12500;
  milliamps = 900;
  temperature = 0;
  capacity = 0;
  real = 13;
  level_from_str = λ _. none;
  system_cmd = λ _. says "none";
  version = "0";
}

abbrev paused_target : V5Target
paused_target = record running { breaks_paused = true }

abbrev state : Monitored
state = record { target = paused_target; override = 0; max_level = 2; voltages = [] }

handle_monitor_cmd_overrides_example :
    let (_, s') = handle_monitor_cmd board ("comp" ∷ "auton" ∷ []) state in
    shown (read_status 13 s'.override) ≡ shown_after auton 13 13
unfolding read_status
handle_monitor_cmd_overrides_example =
    handle_monitor_cmd_overrides board 4 "auton" [] state auton refl (omega arith)

autostop_turned_on :
    (handle_monitor_cmd board ("autostop" ∷ "true" ∷ []) state).1.target.stop_motors_on_break ≡ true
unfolding handle_monitor_cmd
autostop_turned_on = refl

motors_stopped :
    (handle_monitor_cmd board ("stop" ∷ []) state).1.voltages ≡ (100, 0) ∷ (300, 0) ∷ []
unfolding handle_monitor_cmd
motors_stopped = refl
