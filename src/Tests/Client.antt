-- ===== src/Tests/Client.antt =====
-- The client's loop at a concrete input.
use v5gdb.Base.{◌≡◌, refl, true, [], ◌∷◌}
use v5gdb.Client.{serve}
use v5gdb.Client.Loop.{device_bytes, gdb_bytes, gdb_closed, serve_loop}
use v5gdb.Client.Loop.Directions.{beside, serve_loop_lem}
use v5gdb.Client.Start.{gdb_args}
use v5gdb.Tests.Transport.{shifting}

-- A read of the device between two reads of GDB.
serve_loop_lem_example :
    serve_loop shifting 9 []
      (record { debug_out = []; user_out = [] })
      []
      (gdb_bytes (36 ∷ []) true
        ∷ device_bytes (101 ∷ 2 ∷ 0 ∷ [])
        ∷ gdb_bytes (35 ∷ []) true
        ∷ gdb_closed
        ∷ [])
    ≡ beside shifting
        (36 ∷ 35 ∷ [])
        (serve shifting 9 [] (record { debug_out = []; user_out = [] }) ((101 ∷ 2 ∷ 0 ∷ []) ∷ []))
serve_loop_lem_example =
    serve_loop_lem shifting 9 [] (record { debug_out = []; user_out = [] }) []
      (gdb_bytes (36 ∷ []) true
        ∷ device_bytes (101 ∷ 2 ∷ 0 ∷ [])
        ∷ gdb_bytes (35 ∷ []) true
        ∷ gdb_closed
        ∷ [])

started_with :
    gdb_args ("a.elf" ∷ [])
    ≡ "--eval-command=file a.elf" ∷ "--eval-command=target remote :35537" ∷ []
unfolding gdb_args
started_with = refl
