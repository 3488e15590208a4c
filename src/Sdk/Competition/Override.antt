-- ===== src/Sdk/Competition/Override.antt =====
-- What the program sees after an override.
use v5gdb.Base.{
  ℕ, ◌/◌, ◌%◌, ◌<◌, ◌≡◌, ◌∙◌, ap, Bool, true, false, none, some, bit, with_bit, weigh, arith,
}
use v5gdb.Sdk.Competition.{
  disabled_bit, autonomous_bit, connected_bit, system_bit, set_override, read_override, read_status,
  CompArgument, driver, auton, disabled, disconnected, field_control, switch, real_status,
  comp_status, comp,
}

-- What is set is read: the program sees the status that was set, and with none set the real one.
-- The bit that marks an override is seen by neither; a status is supposed not to have it.
pub read_status-set_override :
    (real status : ℕ)
    → status < 2147483648
    → (read_status real (set_override (some status)) ≡ status)
      × (read_status real (set_override none) ≡ real)
unfolding read_status set_override read_override
read_status-set_override real status h = (ground arith, ground arith)

-- The bits of the competition mode and of the competition system.
abbrev pub mode : ℕ → Bool × Bool
mode s = (bit s disabled_bit, bit s autonomous_bit)

abbrev pub system : ℕ → Bool × Bool
system s = (bit s connected_bit, bit s system_bit)

abbrev pub observed : ℕ → (Bool × Bool) × (Bool × Bool)
observed s = (mode s, system s)

-- What each argument should make of the mode and the system that the program sees.
abbrev pub expected : CompArgument → ℕ → ℕ → (Bool × Bool) × (Bool × Bool)
expected driver real s = ((false, false), system s)
expected auton real s = ((false, true), system s)
expected disabled real s = ((true, false), system s)
expected disconnected real s = (mode s, (false, false))
expected field_control real s = (mode s, (true, true))
expected switch real s = (mode s, (true, false))
expected real_status real s = (mode real, system real)

-- A status with the two bits of the mode given anew.
low-bits :
    (s : ℕ) (b c : Bool)
    → s < 2147483648
    → let s' = with_bit (with_bit s disabled_bit b) autonomous_bit c in
      (s' < 2147483648) × (s' % 2 ≡ weigh b 1) × (s' / 2 % 2 ≡ weigh c 1) × (s' / 4 ≡ s / 4)
low-bits s true true h = omega arith
low-bits s true false h = omega arith
low-bits s false true h = omega arith
low-bits s false false h = omega arith

-- A status with the two bits of the system given anew.
high-bits :
    (s : ℕ) (b c : Bool)
    → s < 2147483648
    → let s' = with_bit (with_bit s connected_bit b) system_bit c in
      (s' < 2147483648) × (s' / 4 % 2 ≡ weigh b 1) × (s' / 8 % 2 ≡ weigh c 1) × (s' % 4 ≡ s % 4)
high-bits s true true h = omega arith
high-bits s true false h = omega arith
high-bits s false true h = omega arith
high-bits s false false h = omega arith

set_mode :
    (s : ℕ) (b c : Bool)
    → s < 2147483648
    → observed (with_bit (with_bit s disabled_bit b) autonomous_bit c) ≡ ((b, c), system s)
set_mode s true true h = ground (arith, low-bits s true true h)
set_mode s true false h = ground (arith, low-bits s true false h)
set_mode s false true h = ground (arith, low-bits s false true h)
set_mode s false false h = ground (arith, low-bits s false false h)

set_system :
    (s : ℕ) (b c : Bool)
    → s < 2147483648
    → observed (with_bit (with_bit s connected_bit b) system_bit c) ≡ (mode s, (b, c))
set_system s true true h = ground (arith, high-bits s true true h)
set_system s true false h = ground (arith, high-bits s true false h)
set_system s false true h = ground (arith, high-bits s false true h)
set_system s false false h = ground (arith, high-bits s false false h)

-- The program sees the status that is set.
seen :
    (real status : ℕ) (x : (Bool × Bool) × (Bool × Bool))
    → status < 2147483648
    → observed status ≡ x
    → let s = read_status real (set_override (some status)) in observed s ≡ x
seen real status x h e = ap observed (read_status-set_override real status h).0 ∙ e

-- After `comp` with an argument the program sees the mode or the system that the argument names, and
-- the other of the two as it was; `comp real` shows it the real status. The status that it saw
-- before is supposed to be below 2 ^ 31.
pub comp-expected :
    (arg : CompArgument) (real override : ℕ)
    → read_status real override < 2147483648
    → let seen = read_status real (comp arg real override) in
      observed seen ≡ expected arg real (read_status real override)
unfolding comp comp_status
comp-expected driver real override h =
    let s = read_status real override in
    seen real _ _ (low-bits s false false h).0 (set_mode s false false h)
comp-expected auton real override h =
    let s = read_status real override in
    seen real _ _ (low-bits s false true h).0 (set_mode s false true h)
comp-expected disabled real override h =
    let s = read_status real override in
    seen real _ _ (low-bits s true false h).0 (set_mode s true false h)
comp-expected disconnected real override h =
    let s = read_status real override in
    seen real _ _ (high-bits s false false h).0 (set_system s false false h)
comp-expected field_control real override h =
    let s = read_status real override in
    seen real _ _ (high-bits s true true h).0 (set_system s true true h)
comp-expected switch real override h =
    let s = read_status real override in
    seen real _ _ (high-bits s true false h).0 (set_system s true false h)
comp-expected real_status real override h =
    ap observed (read_status-set_override real 0 (omega arith)).1
