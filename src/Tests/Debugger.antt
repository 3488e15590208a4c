-- ===== src/Tests/Debugger.antt =====
-- The session with GDB at concrete inputs, under a stub that resumes the program at once.
use v5gdb.Base.{
  ℕ, ◌-◌, ◌≡◌, refl, true, false, Option, none, some, List, [], ◌∷◌, replicate, if◌then◌else◌,
  within, get_or, to_le_bytes, arith,
}
use v5gdb.Breakpoint.Hardware.{locked}
use v5gdb.Sdk.Motors.{stop_all_motors}
use v5gdb.Sdk.Redirect.{redirect_function, redirect_function_lem}
use v5gdb.Target.{V5Target, World}
use v5gdb.Target.Entry.{enter_breakpoint}
use v5gdb.Target.Registers.{resume}
use v5gdb.Debugger.{Env, Outside, idle, running, active_stage, DebugSession, system_exit_request}
use v5gdb.Debugger.Callbacks.{none_made, call, resume_program}
use v5gdb.Debugger.Stop.Shown.{Stops, handle_stop_returns}
use v5gdb.Debugger.Console.{handle_debug_event}
use v5gdb.Debugger.Console.Resumption.{EventStands, handle_debug_event_stands}
use v5gdb.Debugger.Console.Returns.{Serves}
use v5gdb.Debugger.Poll.{poll}
use v5gdb.Debugger.Poll.Interrupts.{Connection, Polled, poll_returns}
use v5gdb.Debugger.Schedule.{System, IsRunning, run_program, irq_poll, start, next, Steps-IsRunning}
use v5gdb.Debugger.Start.{Symbols}
use v5gdb.Tests.Hardware.{context, running as running_target, running-Ready}
use v5gdb.Tests.Sessions.{idle as idle_world}

-- The state is the bytes that wait.
abbrev next_byte : List ℕ → Option ℕ × List ℕ
next_byte [] = (none, [])
next_byte (b ∷ bs) = (some b, bs)

abbrev resumed : Env → Env
resumed e = record e { target = resume e.target }

abbrev pub eager : Outside
eager = record {
  Inner = List ℕ;
  run_state_machine = λ g e. some (running g, e);
  read = next_byte;
  incoming_data = λ g b e. some (running g, resumed e);
  report_stop = λ g r e. some (idle g, resumed e);
  interrupt_handled = λ g e. some (idle g, e);
  return_to_idle = idle;
  try_read = next_byte;
  tasks_run = λ w. w;
  current_thread = λ _. 1;
}

pub eager-Serves : Serves eager
eager-Serves = record {
  starts = λ g e. ((running g, e), refl, none_made);
  takes = λ g b e. ((running g, resumed e), refl, call none_made resume_program);
  reports = λ g r e. ((idle g, resumed e), refl, call none_made resume_program);
  interrupts = λ g e. ((idle g, e), refl, none_made);
  tasks = λ w. refl;
}

abbrev session : DebugSession (List ℕ)
session = record {
  target = running_target;
  internal_breaks = some ((system_exit_request, 0x03800000) ∷ []);
  stage = active_stage (running (1 ∷ 3 ∷ 5 ∷ []));
}

bytes_empty : (g : List ℕ) → g ≡ [] → ((next_byte g).0 ≡ none) × ((next_byte g).1 ≡ [])
bytes_empty [] e = (refl, refl)
bytes_empty (b ∷ bs) e = absurd (cc)

bytes_next :
    (g : List ℕ) (b : ℕ) (bs : List ℕ)
    → g ≡ b ∷ bs
    → ((next_byte g).0 ≡ some b) × ((next_byte g).1 ≡ bs)
bytes_next [] b bs e = absurd (cc)
bytes_next (c ∷ cs) b bs e = (cc, cc)

abbrev in_order : Connection eager
in_order = record { bytes = λ g. g; empty = bytes_empty; next = bytes_next }

poll_returns_example :
    (s' : DebugSession (List ℕ)) × (poll eager 4 false session ≡ some s')
    × Polled eager in_order (1 ∷ 3 ∷ 5 ∷ []) session s'
poll_returns_example =
    poll_returns eager in_order 4 session (1 ∷ 3 ∷ 5 ∷ []) running-Ready refl (omega arith)

handle_stop_returns_example :
    (t : V5Target) × (w' : World) × (enter_breakpoint context session.target idle_world
      ≡ some (t, w'))
    × Stops
        (locked running_target.hw_manager)
        1
        context
        (record session { target = t })
        w'
        t.stop_reason
handle_stop_returns_example =
    handle_stop_returns context session idle_world 0 running-Ready refl refl

handle_debug_event_stands_example :
    let (stops, r) = handle_debug_event eager 5 (some 8 ∷ none ∷ []) context session idle_world in
    EventStands (locked running_target.hw_manager) 0 r
    × (stops ≡ (
        if session.target.stop_motors_on_break then stop_all_motors (some 8 ∷ none ∷ []) else []))
handle_debug_event_stands_example =
    handle_debug_event_stands eager eager-Serves 5 (some 8 ∷ none ∷ []) context session idle_world 0
      running-Ready tt refl refl

abbrev quiet : System eager
quiet = record {
  session = record session { stage = active_stage (running (1 ∷ 5 ∷ [])) };
  world = idle_world;
}

quiet-IsRunning : IsRunning eager (locked running_target.hw_manager) 0 quiet
quiet-IsRunning = record {
  ready = running-Ready;
  same_lock = refl;
  live = refl;
  suspended = refl;
  up = tt;
}

-- The program runs on, and a poll takes bytes that hold no interrupt.
abbrev polled : System eager
polled = record quiet { session = record session { stage = active_stage (running []) } }

poll_quiet :
    poll eager 4 false (record session { stage = active_stage (running (1 ∷ 5 ∷ [])) })
    ≡ some polled.session
unfolding poll
poll_quiet = refl

-- The program suspends the scheduler twice, and then there is a poll.
Steps-IsRunning_example :
    IsRunning eager
      (locked running_target.hw_manager)
      2
      (record polled { world = record (polled.world) { suspensions = 2 } })
Steps-IsRunning_example =
    Steps-IsRunning eager (locked running_target.hw_manager) eager-Serves 0 quiet-IsRunning
      (next (next start (run_program idle_world.machine 2)) (irq_poll 4 polled.session poll_quiet))

abbrev symbols : Symbols
symbols = record {
  system_exit_request = 0x03800000;
  competition_status = 0x03800101;
  read_status = 0x03800200;
  trampolines = record { arm = replicate 8 1; thumb = replicate 8 2 };
}

redirect_function_lem_example :
    let p = symbols.trampolines in
    let s' = redirect_function p 0x03800101 0x03800200 idle_world.machine in
    ((a : ℕ)
      → s'.mem a ≡ (
          if within 0x03800100 8 a
          then get_or (replicate 8 2) (a - 0x03800100) 0
          else if within 0x03800108 4 a
          then get_or (to_le_bytes 4 0x03800200) (a - 0x03800108) 0
          else idle_world.machine.mem a))
    × ((a : ℕ) → within 0x03800100 8 a ≡ true → s'.fetched a ≡ s'.mem a)
redirect_function_lem_example =
    redirect_function_lem symbols.trampolines 0x03800101 0x03800200 idle_world.machine (omega arith)
