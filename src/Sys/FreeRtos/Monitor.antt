-- ===== src/Sys/FreeRtos/Monitor.antt =====
-- The command `monitor sys` of FreeRTOS (`handle_monitor_cmd` of src/sys/freertos/mod.rs). The colours
-- of the states are left out; what decodes a name from UTF-8, and which task's control block is
-- the current one, are arguments.
use v5gdb.Base.{
  ℕ, String, ◌<>◌, ◌is◌, ◌||◌, Option, none, some, List, [], ◌∷◌, map, ◌==◌, if◌then◌else◌,
}
use v5gdb.Monitor.Output.{text, left_aligned, padded, Line, says}
use v5gdb.Sys.FreeRtos.{TaskStatus, running, ready, blocked, suspended, deleted}

abbrev pub monitor_help : String
monitor_help =
    "FreeRTOS-specific commands:\n"
    <> "    sys help                            Show this help message.\n"
    <> "    sys tasks                           Lists the following details about each running task:\n"
    <> "                                        * Id: The unique task ID number.\n"
    <> "                                        * Name: Task name\n"
    <> "                                        * State: The scheduling state of the task.\n"
    <> "                                        * Priority: The scheduling priority of the task.\n"
    <> "                                        * Stack Remaining: The amount of bytes in the task's stack\n"
    <> "                                        which have never been used.\n"

abbrev pub state_name : ℕ → String
state_name state =
    if state == blocked
    then "Blocked"
    else if state == deleted
    then "Deleted"
    else if state == ready
    then "Ready"
    else if state == running
    then "Running"
    else if state == suspended
    then "Suspend"
    else "Unknown"

-- The name of a task, or what stands in its place.
abbrev pub task_name : (List ℕ → Option String) → TaskStatus → String
task_name to_str t =
    if t.name_is_null
    then "<none>"
    else elim (to_str t.name) [ some s ↦ s | none ↦ "<Invalid UTF-8>" ]

abbrev pub task_line : (List ℕ → Option String) → ℕ → TaskStatus → Line
task_line to_str current t =
    text (if t.handle == current then "*" else " ")
    ∷ text " "
    ∷ left_aligned 3 t.task_number
    ∷ text " "
    ∷ padded 32 (task_name to_str t)
    ∷ text " "
    ∷ padded 10 (state_name t.current_state)
    ∷ text " "
    ∷ left_aligned 10 t.current_priority
    ∷ text " "
    ∷ left_aligned 10 t.stack_high_water_mark
    ∷ []

abbrev pub task_header : Line
task_header =
    text "  "
    ∷ padded 3 "Id"
    ∷ text " "
    ∷ padded 32 "Name"
    ∷ text " "
    ∷ padded 10 "State"
    ∷ text " "
    ∷ padded 10 "Priority"
    ∷ text " "
    ∷ padded 10 "Stack Remaining"
    ∷ []

-- `handle_monitor_cmd`; `flavor` is `FREERTOS_FLAVOR`.
unfoldable pub handle_monitor_cmd :
    (List ℕ → Option String) → String → ℕ → List TaskStatus → List String → List Line
handle_monitor_cmd to_str flavor current tasks words = run (first words)
  where
    first : List String → String
    first [] = "?"
    first (w ∷ _) = w

    run : String → List Line
    run cmd =
        if cmd is "t" || (cmd is "task" || cmd is "tasks")
        then task_header ∷ map (task_line to_str current) tasks
        else if cmd is "?" || (cmd is "help" || cmd is "h")
        then (text ("v5gdb is configured for FreeRTOS" <> flavor <> ".") ∷ [])
          ∷ (text monitor_help ∷ [])
          ∷ []
        else says "Unknown command. See 'monitor sys help' for more info."
