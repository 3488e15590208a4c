-- ===== src/Monitor/Command/Effect.antt =====
-- What a monitor command changes, by its words (`handle_monitor_cmd` of src/gdb_target/monitor.rs).
use v5gdb.Base.{
  ℕ, String, ◌≡◌, Bool, true, false, ◌||◌, ◌&&◌, Option, none, some, List, [], ◌∷◌, ◌++◌, get_elem?,
  ◌is◌,
}
use v5gdb.Sdk.Competition.{CompArgument, comp}
use v5gdb.Sdk.Motors.{stop_all_motors}
use v5gdb.Monitor.Words.{Command, stop, autostop, comp_cmd, log}
use v5gdb.Monitor.Command.{Board, Monitored, handle_monitor_cmd}
use v5gdb.Monitor.Command.Mode.{mode_words}

abbrev pub is_one_of : String → List (String × CompArgument) → Bool
is_one_of w [] = false
is_one_of w ((x, arg) ∷ l) = w is x || is_one_of w l

abbrev pub is_level : Option ℕ → Bool
is_level none = false
is_level (some level) = true

-- Whether the words are `stop`, `autostop true`, `autostop false`, `comp` with a word that names a
-- mode or a system, or `log` with a word that names a level, and any words after these.
abbrev pub changes : Board → List String → Bool
changes b [] = false
changes b (cmd ∷ []) = cmd is "stop"
changes b (cmd ∷ w ∷ args) =
    cmd is "stop"
    || ((cmd is "autostop" && (w is "true" || w is "false"))
        || ((cmd is "comp" && is_one_of w mode_words)
            || (cmd is "log" && is_level (b.level_from_str w))))

-- The state after the words: everything that is not written here is as it was.
pub data Effect (b : Board) (s : Monitored) : List String → Monitored → Type 0 where
  stops :
      (args : List String)
      → Effect b s
          ("stop" ∷ args)
          (record s { voltages = s.voltages ++ stop_all_motors b.motor_ports })
  turns_on :
      (args : List String)
      → Effect b s
          ("autostop" ∷ "true" ∷ args)
          (record s { target = record (s.target) { stop_motors_on_break = true } })
  turns_off :
      (args : List String)
      → Effect b s
          ("autostop" ∷ "false" ∷ args)
          (record s { target = record (s.target) { stop_motors_on_break = false } })
  overrides :
      (n : ℕ) (w : String) (args : List String) (arg : CompArgument)
      → get_elem? mode_words n ≡ some (w, arg)
      → Effect b s ("comp" ∷ w ∷ args) (record s { override = comp arg b.real s.override })
  sets_level :
      (w : String) (args : List String) (level : ℕ)
      → b.level_from_str w ≡ some level
      → Effect b s ("log" ∷ w ∷ args) (record s { max_level = level })
  keeps : (words : List String) → changes b words ≡ false → Effect b s words s

-- The word is none of the list.
abbrev IsOther : String → List (String × CompArgument) → Type 0
IsOther w [] = Unit {0}
IsOther w ((x, arg) ∷ l) = ((w is x) ≡ false) × IsOther w l

-- The commands that only print.
abbrev is_quiet : Command → Bool
is_quiet stop = false
is_quiet autostop = false
is_quiet comp_cmd = false
is_quiet log = false
is_quiet _ = true

module _ (b : Board) (s : Monitored) where
  -- The state after the words has the effect.
  abbrev Does : List String → Type 0
  Does words = Effect b s words (handle_monitor_cmd b words s).1
