-- ===== src/Sdk/Motors.antt =====
-- Stopping the motors (src/sdk/mod.rs, `stop_all_motors`).
use v5gdb.Base.{ℕ, Option, none, some, List, [], ◌∷◌}

-- The calls of `vexDeviceMotorVoltageSet`, each with a device and a voltage in millivolts. The list
-- holds the handle that `vexDeviceGetByIndex` gives for each port, `none` for a null handle.
unfoldable pub stop_all_motors : List (Option ℕ) → List (ℕ × ℕ)
stop_all_motors [] = []
stop_all_motors (none ∷ ports) = stop_all_motors ports
stop_all_motors (some device ∷ ports) = (device, 0) ∷ stop_all_motors ports
