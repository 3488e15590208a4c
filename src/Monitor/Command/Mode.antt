-- ===== src/Monitor/Command/Mode.antt =====
-- What the program sees of the competition after the command `comp`.
use v5gdb.Base.{
  ℕ, zero, suc, String, ◌<◌, ◌≡◌, refl, ◌∙◌, ap, subst, Bool, some, some_inj, List, [], ◌∷◌,
  get_elem?, if◌then◌else◌,
}
use v5gdb.Sdk.Competition.{
  CompArgument, driver, auton, disabled, disconnected, field_control, switch, real_status,
  read_status, comp, shown_mode, shown_system,
}
use v5gdb.Sdk.Competition.Override.{observed, expected, comp-expected}
use v5gdb.Monitor.Words.{comp_argument}
use v5gdb.Monitor.Command.{Board, Monitored, comp_words, handle_monitor_cmd}

-- A status as it is printed: the mode, then the system.
abbrev pub shown : ℕ → String × String
shown s = (shown_mode s, shown_system s)

-- What each argument should make of a status as it is printed.
abbrev pub shown_after : CompArgument → ℕ → ℕ → String × String
shown_after driver real s = ("opcontrol", shown_system s)
shown_after auton real s = ("autonomous", shown_system s)
shown_after disabled real s = ("disabled", shown_system s)
shown_after disconnected real s = (shown_mode s, "disconnected")
shown_after field_control real s = (shown_mode s, "field-control")
shown_after switch real s = (shown_mode s, "competition-switch")
shown_after real_status real s = shown real

-- The words, from the bits of the mode and of the system.
of_bits : (Bool × Bool) × (Bool × Bool) → String × String
of_bits ((off, alone), (connected, system)) = (
  if off then "disabled" else if alone then "autonomous" else "opcontrol",
  if connected then (if system then "field-control" else "competition-switch") else "disconnected",
)

shown-observed : (s : ℕ) → shown s ≡ of_bits (observed s)
unfolding of_bits
shown-observed s = refl

of_bits-expected :
    (arg : CompArgument) (real s : ℕ) → of_bits (expected arg real s) ≡ shown_after arg real s
unfolding of_bits
of_bits-expected driver real s = refl
of_bits-expected auton real s = refl
of_bits-expected disabled real s = refl
of_bits-expected disconnected real s = refl
of_bits-expected field_control real s = refl
of_bits-expected switch real s = refl
of_bits-expected real_status real s = refl

-- The words that name a mode or a system, and `real`.
abbrev pub mode_words : List (String × CompArgument)
mode_words =
    ("driver", driver)
    ∷ ("op", driver)
    ∷ ("opcontrol", driver)
    ∷ ("auto", auton)
    ∷ ("auton", auton)
    ∷ ("autonomous", auton)
    ∷ ("dis", disabled)
    ∷ ("disabled", disabled)
    ∷ ("none", disconnected)
    ∷ ("disconnected", disconnected)
    ∷ ("fc", field_control)
    ∷ ("field-control", field_control)
    ∷ ("switch", switch)
    ∷ ("real", real_status)
    ∷ []

-- The code reads each word of the list as the list has it.
abbrev AllNamed : List (String × CompArgument) → Type 0
AllNamed [] = Unit {0}
AllNamed ((w, arg) ∷ l) = (comp_argument w ≡ some arg) × AllNamed l

named :
    (l : List (String × CompArgument)) (n : ℕ) (w : String) (arg : CompArgument)
    → AllNamed l
    → get_elem? l n ≡ some (w, arg)
    → comp_argument w ≡ some arg
named [] n w arg all h = absurd (cc h)
named (x ∷ l) zero w arg all h = subst (λ y. comp_argument y.0 ≡ some y.1) (some_inj h) all.0
named (x ∷ l) (suc n) w arg all h = named l n w arg all.1 h

-- The code reads each of these words so.
pub comp_argument_lem :
    (n : ℕ) (w : String) (arg : CompArgument)
    → get_elem? mode_words n ≡ some (w, arg)
    → comp_argument w ≡ some arg
unfolding comp_argument
comp_argument_lem n w arg h =
    named mode_words n w arg
      (
        refl,
        (
          refl,
          (
            refl,
            (
              refl,
              (refl, (refl, (refl, (refl, (refl, (refl, (refl, (refl, (refl, (refl, tt)))))))))),
            ),
          ),
        ),
      )
      h

pub comp_words_runs :
    (b : Board) (w : String) (args : List String) (s : Monitored) (arg : CompArgument)
    → comp_argument w ≡ some arg
    → (comp_words b.real (w ∷ args) s).1 ≡ record s { override = comp arg b.real s.override }
unfolding comp_words
comp_words_runs b w args s arg e = rw (comp_words, e) refl

comp_runs :
    (b : Board) (w : String) (args : List String) (s : Monitored) (arg : CompArgument)
    → comp_argument w ≡ some arg
    → (handle_monitor_cmd b ("comp" ∷ w ∷ args) s).1.override ≡ comp arg b.real s.override
unfolding handle_monitor_cmd
comp_runs b w args s arg e = ap (λ x. x.override) (comp_words_runs b w args s arg e)

-- `monitor comp` with one of the fourteen words of the table: the program then sees a status that is
-- printed with the mode or the system that the table gives for the word, and the other of the two
-- as it was printed before; `monitor comp real` shows it the real status. The status that it saw
-- before is supposed to be below 2 ^ 31.
pub handle_monitor_cmd_overrides :
    (b : Board) (n : ℕ) (w : String) (args : List String) (s : Monitored) (arg : CompArgument)
    → get_elem? mode_words n ≡ some (w, arg)
    → read_status b.real s.override < 2147483648
    → let before = read_status b.real s.override in
      let (_, s') = handle_monitor_cmd b ("comp" ∷ w ∷ args) s in
      shown (read_status b.real s'.override) ≡ shown_after arg b.real before
handle_monitor_cmd_overrides b n w args s arg e h =
    let before = read_status b.real s.override in
    let after = read_status b.real (comp arg b.real s.override) in
    ap (λ o. shown (read_status b.real o)) (comp_runs b w args s arg (comp_argument_lem n w arg e))
    ∙ (shown-observed after
        ∙ (ap of_bits (comp-expected arg b.real s.override h) ∙ of_bits-expected arg b.real before))
