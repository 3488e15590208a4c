-- ===== src/Monitor/Controller.antt =====
-- The commands `ctrl` and `batt` (`controller` and `battery` of src/gdb_target/monitor.rs). What the
-- SDK reports is an argument: the connection of a controller and the number at each index of it.
use v5gdb.Base.{ℕ, String, ◌<>◌, ◌is◌, Option, none, some, List, [], ◌∷◌, ◌==◌, ◌||◌, if◌then◌else◌}
use v5gdb.Monitor.Output.{Piece, text, signed, float, Line, says}

pub data ControllerId : Type 0 where
  master partner : ControllerId

-- `V5_ControllerStatus`, the other values together
pub data ControllerStatus : Type 0 where
  tethered vexnet offline : ControllerStatus

-- `V5_ControllerIndex`
pub data ControllerIndex : Type 0 where
  ana_left_x ana_left_y ana_right_x ana_right_y battery_capacity : ControllerIndex
  button_l1 button_l2 button_r1 button_r2 : ControllerIndex
  button_up button_down button_left button_right : ControllerIndex
  button_x button_b button_y button_a button_sel : ControllerIndex

-- `CONTROLLER_BUTTONS`
abbrev pub controller_buttons : List (String × ControllerIndex)
controller_buttons =
    ("L1", button_l1)
    ∷ ("L2", button_l2)
    ∷ ("R1", button_r1)
    ∷ ("R2", button_r2)
    ∷ ("Up", button_up)
    ∷ ("Down", button_down)
    ∷ ("Left", button_left)
    ∷ ("Right", button_right)
    ∷ ("X", button_x)
    ∷ ("B", button_b)
    ∷ ("Y", button_y)
    ∷ ("A", button_a)
    ∷ ("SEL", button_sel)
    ∷ []

abbrev pub which_controller : Option String → ControllerId × String
which_controller none = (master, "Primary")
which_controller (some which) =
    if which is "partner" || which is "p" then (partner, "Partner") else (master, "Primary")

-- The names of the buttons that are pressed, each after a space.
unfoldable pub pressed : (ControllerIndex → ℕ) → List (String × ControllerIndex) → List Piece
pressed get [] = []
pressed get ((name, index) ∷ buttons) =
    let rest = pressed get buttons in if get index == 0 then rest else text (" " <> name) ∷ rest

unfoldable pub active_buttons : (ControllerIndex → ℕ) → List Piece
unfolding pressed
active_buttons get = elim (pressed get controller_buttons) [
  | [] ↦ text " (none)" ∷ []
  | p ∷ ps ↦ p ∷ ps
]

-- What is printed of a controller that is connected.
unfoldable pub controller_state : String → String → (ControllerIndex → ℕ) → List Line
unfolding active_buttons
controller_state label connection get =
    (text (label <> " controller (" <> connection <> "):") ∷ [])
    ∷ (text "  left stick:  ("
        ∷ signed 4 (get ana_left_x)
        ∷ text ", "
        ∷ signed 4 (get ana_left_y)
        ∷ text ")"
        ∷ [])
    ∷ (text "  right stick: ("
        ∷ signed 4 (get ana_right_x)
        ∷ text ", "
        ∷ signed 4 (get ana_right_y)
        ∷ text ")"
        ∷ [])
    ∷ (text "  battery:     " ∷ signed 0 (get battery_capacity) ∷ text "%" ∷ [])
    ∷ (text "  active buttons: " ∷ active_buttons get)
    ∷ []

-- `controller`
unfoldable pub controller :
    (ControllerId → ControllerStatus)
    → (ControllerId → ControllerIndex → ℕ)
    → Option String
    → List Line
unfolding controller_state
controller status get which =
    let (id, label) = which_controller which in
    elim (status id) [
      | tethered ↦ controller_state label "Tethered" (get id)
      | vexnet ↦ controller_state label "VEXnet" (get id)
      | offline ↦ says (label <> " controller: offline")
    ]

-- `battery`
abbrev pub battery : ℕ → ℕ → ℕ → ℕ → List Line
battery millivolts milliamps temperature capacity =
    (text "voltage:     " ∷ signed 0 millivolts ∷ text " mV" ∷ [])
    ∷ (text "current:     " ∷ signed 0 milliamps ∷ text " mA" ∷ [])
    ∷ (text "temperature: " ∷ float temperature ∷ text " °C" ∷ [])
    ∷ (text "capacity:    " ∷ float capacity ∷ text "%" ∷ [])
    ∷ []
