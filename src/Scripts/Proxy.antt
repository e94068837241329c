-- ===== src/Scripts/Proxy.antt =====
-- tools/microstack/microstack/main.py: the subcommands of `microstack`.
pub mod Dispatch
use microstack.Base.{String, ◌==◌, Option, none, some, List, [], ◌∷◌, if◌then◌else◌}
use microstack.Machine.{exception, index_error}
use microstack.Machine.Monad.{Outcome, ok, raised, and_then}

pub data Command : Type 0 where
  init add_compute launch : Command

-- `COMMANDS.get(name, None)`
unfoldable pub command_of : String → Option Command
command_of name =
    if name == "init"
    then some init
    else if name == "add-compute"
    then some add_compute
    else if name == "launch"
    then some launch
    else none

-- `sys.argv[1:2]`
unfoldable pub command_arguments : List String → List String
command_arguments (program ∷ command ∷ rest) = command ∷ []
command_arguments _ = []

-- The arguments that a command is called with: `sys.argv[0] = sys.argv[1]; del(sys.argv[1])`.
unfoldable pub shift : List String → Outcome (List String)
shift (program ∷ command ∷ rest) = ok (command ∷ rest)
shift _ = raised (index_error "sys.argv")

unfoldable pub dispatch : Option Command → List String → Outcome (Command × List String)
unfolding shift
dispatch none argv = raised (exception "Unrecognized command")
dispatch (some command) argv = and_then (shift argv) λ argv'. ok (command, argv')

-- `main`: the command that is called and its `sys.argv`. `parse_args` is the parser of argparse,
-- which returns the attribute `command` or leaves the program.
unfoldable pub main : (List String → Outcome String) → List String → Outcome (Command × List String)
unfolding command_of command_arguments dispatch
main parse_args argv =
    and_then (parse_args (command_arguments argv)) λ name. dispatch (command_of name) argv
