-- ===== src/Client/Start.antt =====
-- How the client starts GDB (src/cli of the repository: `main` of src/bin/v5gdb.rs): the search of the
-- path is an argument, which gives where a program is.
use v5gdb.Base.{String, ◌<>◌, Option, none, List, [], ◌∷◌, ◌++◌, map, or_else}

abbrev pub known_gdb_names : List String
known_gdb_names = "arm-none-eabi-gdb" ∷ "gdb-multiarch" ∷ "gdb" ∷ []

-- The first of the names that is found; with none the client exits with an error.
unfoldable pub resolved_gdb : (String → Option String) → List String → Option String
resolved_gdb which [] = none
resolved_gdb which (name ∷ names) = or_else (which name) (resolved_gdb which names)

-- The arguments for the files to debug
unfoldable pub gdb_args : List String → List String
gdb_args [] = "--eval-command=target remote :35537" ∷ []
gdb_args (main_elf_file ∷ elves) =
    ("--eval-command=file " <> main_elf_file)
    ∷ (map (λ elf_file. "--eval-command=add-symbol-file " <> elf_file) elves
        ++ ("--eval-command=target remote :35537" ∷ []))
