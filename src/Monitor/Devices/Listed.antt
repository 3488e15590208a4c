-- ===== src/Monitor/Devices/Listed.antt =====
-- Which devices the command `dev` lists.
use v5gdb.Base.{ℕ, ◌+◌, ◌≤◌, ◌≡◌, ◌↔◌, ◌⊎◌, false, some, List, [], ◌∷◌, get_elem?}
use v5gdb.Monitor.Output.{Line, text}
use v5gdb.Monitor.Devices.{DeviceType, is_undefined, is_no_sensor, device_line}

abbrev pub IsListed : ℕ × DeviceType → List (ℕ × DeviceType) → Type 0
IsListed d l = (k : ℕ) × (get_elem? l k ≡ some d)

-- The SDK knows the ports up to number `n`, counted from 0.
abbrev pub KnownUpTo : ℕ → List DeviceType → Type 0
KnownUpTo n types =
    (j : ℕ) → j ≤ n → (ty : DeviceType) × (get_elem? types j ≡ some ty) × (is_undefined ty ≡ false)

-- The device stands at port `n`, counted from 0, and every port before it is known.
pub record Connected (types : List DeviceType) (n : ℕ) (ty : DeviceType) : Type 0 where
  pub at_port : get_elem? types n ≡ some ty
  pub sensor : is_no_sensor ty ≡ false
  pub known : KnownUpTo n types

-- The device is in the list that starts with port `i`.
abbrev Found : ℕ → List DeviceType → ℕ × DeviceType → Type 0
Found i types d = (n : ℕ) × (d.0 ≡ i + n + 1) × Connected types n d.1

-- The line is printed.
abbrev pub IsPrinted : Line → List Line → Type 0
IsPrinted line lines = (k : ℕ) × (get_elem? lines k ≡ some line)

-- The line of a connected device.
abbrev pub IsDeviceLine : List DeviceType → Line → Type 0
IsDeviceLine types line =
    (n : ℕ) × (ty : DeviceType) × Connected types n ty × (line ≡ device_line (n + 1, ty))

-- What should be printed: one line if nothing is connected, and otherwise the lines of the
-- connected devices.
abbrev pub Prints : List DeviceType → List Line → Type 0
Prints types lines =
    (((n : ℕ) (ty : DeviceType) → ¬ Connected types n ty)
      × (lines ≡ (text "No devices connected." ∷ []) ∷ []))
    ⊎ (((n : ℕ) × (ty : DeviceType) × Connected types n ty)
        × ((line : Line) → IsPrinted line lines ↔ IsDeviceLine types line))
