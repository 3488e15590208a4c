-- ===== src/Monitor/Devices.antt =====
-- The command `dev` (`devices` of src/gdb_target/monitor.rs): the types of the devices, port by
-- port, are what the SDK reports.
pub mod Listed
use v5gdb.Base.{
  ℕ, String, ◌<>◌, ◌is◌, zero, suc, ◌+◌, Bool, true, false, if◌then◌else◌, List, [], ◌∷◌, map,
}
use v5gdb.Monitor.Output.{Line, text, right_aligned, says}

-- `V5_DeviceType`, the values without a name together
pub data DeviceType : Type 0 where
  undefined_sensor no_sensor : DeviceType
  motor_sensor abs_enc_sensor imu_sensor distance_sensor radio_sensor : DeviceType
  tether_sensor brain_sensor vision_sensor adi_sensor optical_sensor : DeviceType
  magnet_sensor gps_sensor ai_vision_sensor light_tower_sensor : DeviceType
  arm_device pneumatic_sensor generic_serial other_type : DeviceType

abbrev pub device_type_name : DeviceType → String
device_type_name motor_sensor = "Motor"
device_type_name abs_enc_sensor = "Rotation"
device_type_name imu_sensor = "Inertial (IMU)"
device_type_name distance_sensor = "Distance"
device_type_name radio_sensor = "Radio"
device_type_name tether_sensor = "Controller"
device_type_name brain_sensor = "Brain"
device_type_name vision_sensor = "Vision"
device_type_name adi_sensor = "ADI (3-Wire)"
device_type_name optical_sensor = "Optical"
device_type_name magnet_sensor = "Electromagnet"
device_type_name gps_sensor = "GPS"
device_type_name ai_vision_sensor = "AI Vision"
device_type_name light_tower_sensor = "Light Tower"
device_type_name arm_device = "Workcell Arm"
device_type_name pneumatic_sensor = "Pneumatics"
device_type_name generic_serial = "Generic Serial"
device_type_name _ = "Unknown"

abbrev pub is_undefined : DeviceType → Bool
is_undefined undefined_sensor = true
is_undefined _ = false

abbrev pub is_no_sensor : DeviceType → Bool
is_no_sensor no_sensor = true
is_no_sensor _ = false

-- The loop of `devices` from port `i` on: the devices that it prints, each with its number.
unfoldable pub found_devices : ℕ → List DeviceType → List (ℕ × DeviceType)
found_devices i [] = []
found_devices i (ty ∷ types) =
    let rest = found_devices (suc i) types in
    if is_undefined ty then [] else if is_no_sensor ty then rest else (i + 1, ty) ∷ rest

abbrev pub device_line : ℕ × DeviceType → Line
device_line (port, ty) =
    text "  port " ∷ right_aligned 2 port ∷ text ": " ∷ text (device_type_name ty) ∷ []

-- `devices`
unfoldable pub devices : List DeviceType → List Line
unfolding found_devices
devices types = elim (found_devices 0 types) [
  | [] ↦ says "No devices connected."
  | d ∷ ds ↦ map device_line (d ∷ ds)
]
