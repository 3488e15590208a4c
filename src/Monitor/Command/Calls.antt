-- ===== src/Monitor/Command/Calls.antt =====
-- What a monitor command may change.
use v5gdb.Base.{
  ℕ, String, ◌≡◌, refl, sym, ap, subst, ◌⊎◌, inl, inr, Bool, true, false, Bool-cases, Option-cases,
  List, [], ◌∷◌, ◌++◌, ◌is◌,
}
use v5gdb.Sdk.Competition.{CompArgument, comp}
use v5gdb.Sdk.Motors.{stop_all_motors}
use v5gdb.Target.{World}
use v5gdb.Debugger.{Env}
use v5gdb.Debugger.Callbacks.{Callbacks, none_made, call, set_autostop}
use v5gdb.Monitor.Words.{
  Command, stop, autostop, dev, batt, ctrl, comp_cmd, dbg, log, sys, help, unknown, command,
  comp_argument,
}
use v5gdb.Monitor.Command.{
  Board, Monitored, autostop_cmd, comp_words, log_cmd, run_command, handle_monitor_cmd,
}

-- What each command may do to the state.
abbrev Allowed : Board → Command → Monitored → Monitored → Type 0
Allowed b stop s s' = s' ≡ record s { voltages = s.voltages ++ stop_all_motors b.motor_ports }
Allowed b autostop s s' =
    (v : Bool) × (s' ≡ record s { target = record (s.target) { stop_motors_on_break = v } })
Allowed b comp_cmd s s' =
    (s' ≡ s) ⊎ ((arg : CompArgument) × (s' ≡ record s { override = comp arg b.real s.override }))
Allowed b log s s' = (level : ℕ) × (s' ≡ record s { max_level = level })
Allowed b _ s s' = s' ≡ s

autostop_cmd-Allowed :
    (b : Board) (args : List String) (s : Monitored) → Allowed b autostop s (autostop_cmd args s).1
unfolding autostop_cmd
autostop_cmd-Allowed b [] s = (s.target.stop_motors_on_break, refl)
autostop_cmd-Allowed b (w ∷ args) s = elim (Bool-cases (w is "true")) [
  | inl e ↦ (true, rw e refl)
  | inr e ↦ elim (Bool-cases (w is "false")) [
    | inl f ↦ (false, rw (e, f) refl)
    | inr f ↦ elim (Bool-cases (w is "?")) [
      | inl g ↦ (s.target.stop_motors_on_break, rw (e, f, g) refl)
      | inr g ↦ (s.target.stop_motors_on_break, rw (e, f, g) refl)
    ]
  ]
]

comp_words-Allowed :
    (b : Board) (args : List String) (s : Monitored)
    → Allowed b comp_cmd s (comp_words b.real args s).1
unfolding comp_words
comp_words-Allowed b [] s = inl refl
comp_words-Allowed b (w ∷ args) s = elim (Option-cases (comp_argument w)) [
  | inl e ↦ inl (rw (comp_words, e) refl)
  | inr (arg, e) ↦ inr (arg, rw (comp_words, e) refl)
]

log_cmd-Allowed :
    (b : Board) (args : List String) (s : Monitored)
    → Allowed b log s (log_cmd b.level_from_str args s).1
unfolding log_cmd
log_cmd-Allowed b [] s = (s.max_level, refl)
log_cmd-Allowed b (w ∷ args) s = elim (Option-cases (b.level_from_str w)) [
  | inl e ↦ (s.max_level, rw (log_cmd, e) refl)
  | inr (level, e) ↦ (level, rw (log_cmd, e) refl)
]

run_command-Allowed :
    (b : Board) (cmd : Command) (args : List String) (s : Monitored)
    → Allowed b cmd s (run_command b cmd args s).1
unfolding run_command
run_command-Allowed b stop args s = refl
run_command-Allowed b autostop args s = autostop_cmd-Allowed b args s
run_command-Allowed b comp_cmd args s = comp_words-Allowed b args s
run_command-Allowed b log args s = log_cmd-Allowed b args s
run_command-Allowed b dev args s = refl
run_command-Allowed b batt args s = refl
run_command-Allowed b ctrl args s = refl
run_command-Allowed b dbg args s = refl
run_command-Allowed b sys args s = refl
run_command-Allowed b help args s = refl
run_command-Allowed b unknown args s = refl

-- The target and the world as GDB's calls see them.
abbrev pub seen : Monitored → World → Env
seen s w = record { target = s.target; world = w }

same_target :
    (s s' : Monitored) (w : World) → s'.target ≡ s.target → Callbacks (seen s w) (seen s' w)
same_target s s' w e =
    subst (λ t. Callbacks (seen s w) (record { target = t; world = w })) (sym e) none_made

-- A command is at most one call of GDB's that sets whether motors stop.
Allowed-Callbacks :
    (b : Board) (cmd : Command) (s s' : Monitored) (w : World)
    → Allowed b cmd s s'
    → Callbacks (seen s w) (seen s' w)
Allowed-Callbacks b autostop s s' w (v, e) =
    subst (λ x. Callbacks (seen s w) (seen x w)) (sym e) (call none_made (set_autostop v))
Allowed-Callbacks b comp_cmd s s' w (inl e) = same_target s s' w (ap (λ x. x.target) e)
Allowed-Callbacks b comp_cmd s s' w (inr (arg, e)) = same_target s s' w (ap (λ x. x.target) e)
Allowed-Callbacks b log s s' w (level, e) = same_target s s' w (ap (λ x. x.target) e)
Allowed-Callbacks b stop s s' w e = same_target s s' w (ap (λ x. x.target) e)
Allowed-Callbacks b dev s s' w e = same_target s s' w (ap (λ x. x.target) e)
Allowed-Callbacks b batt s s' w e = same_target s s' w (ap (λ x. x.target) e)
Allowed-Callbacks b ctrl s s' w e = same_target s s' w (ap (λ x. x.target) e)
Allowed-Callbacks b dbg s s' w e = same_target s s' w (ap (λ x. x.target) e)
Allowed-Callbacks b sys s s' w e = same_target s s' w (ap (λ x. x.target) e)
Allowed-Callbacks b help s s' w e = same_target s s' w (ap (λ x. x.target) e)
Allowed-Callbacks b unknown s s' w e = same_target s s' w (ap (λ x. x.target) e)

-- A monitor command is at most one of the calls that GDB may make.
pub handle_monitor_cmd-Callbacks :
    (b : Board) (words : List String) (s : Monitored) (w : World)
    → Callbacks (seen s w) (seen (handle_monitor_cmd b words s).1 w)
unfolding handle_monitor_cmd
handle_monitor_cmd-Callbacks b [] s w =
    Allowed-Callbacks b help s s w (run_command-Allowed b help [] s)
handle_monitor_cmd-Callbacks b (cmd ∷ args) s w =
    let s' = (run_command b (command cmd) args s).1 in
    Allowed-Callbacks b (command cmd) s s' w (run_command-Allowed b (command cmd) args s)
