-- ===== src/Main.antt =====
-- `main` of main.go: the command that the program's arguments choose.
use mahogany.Base.{String, List, [], ◌∷◌, ◌==◌, string_eq, if◌then◌else◌}

-- What is run, with the arguments that are passed on, or which error is logged.
data Command : Type 0 where
  run_server run_agent missing_argument invalid_argument : Command
  export_data import_data : List String → Command

-- `os.Args` begins with the program's name.
abbrev main : List String → Command
main [] = missing_argument
main (program ∷ []) = missing_argument
main (program ∷ command ∷ args) =
    if command == "server"
    then run_server
    else if command == "agent"
    then run_agent
    else if command == "export"
    then export_data args
    else if command == "import"
    then import_data args
    else invalid_argument
