-- ===== src/Shell/Passing.antt =====
-- The handlers of the shell in src/main/BindingHandler.cpp, ClusterCommands.cpp, MQTTCommands.cpp,
-- SubscribeCommands.cpp and DiscoverCommands.cpp that print help or pass a line on.
use matter_hub.Prelude.{ℕ, List, [], ◌∷◌, ◌++◌}
use matter_hub.Chip.{ChipError, no_error}
use matter_hub.Shell.{
  Engine, switch_engine, on_off_engine, groups_engine, groups_on_off_engine, binding_engine,
  cluster_engine, cluster_on_off_engine, mqtt_engine, subscribe_engine, discover_engine, Table,
  commands_of, ShellState,
}

abbrev pub Result : Type 0
Result = ShellState × ChipError

-- The names of a table's commands.
abbrev pub names_of : Table → List (List ℕ)
names_of [] = []
names_of ((name, h) ∷ t) = name ∷ names_of t

-- ForEachCommand with PrintCommandHelp.
abbrev pub print_help : Engine → ShellState → Result
print_help engine s = (record s { printed = s.printed ++ names_of (commands_of engine) }, no_error)

unfoldable pub switch_help_handler : ShellState → Result
switch_help_handler = print_help switch_engine

unfoldable pub on_off_help_handler : ShellState → Result
on_off_help_handler = print_help on_off_engine

unfoldable pub binding_help_handler : ShellState → Result
binding_help_handler = print_help binding_engine

unfoldable pub groups_help_handler : ShellState → Result
groups_help_handler = print_help groups_engine

unfoldable pub groups_on_off_help_handler : ShellState → Result
groups_on_off_help_handler = print_help groups_on_off_engine

unfoldable pub cluster_help_handler : ShellState → Result
cluster_help_handler = print_help cluster_engine

unfoldable pub cluster_command_on_off_help_handler : ShellState → Result
cluster_command_on_off_help_handler = print_help cluster_on_off_engine

unfoldable pub mqtt_help_handler : ShellState → Result
mqtt_help_handler = print_help mqtt_engine

unfoldable pub mqtt_sub_command_help_handler : ShellState → Result
mqtt_sub_command_help_handler = print_help mqtt_engine

unfoldable pub subscribe_help_handler : ShellState → Result
subscribe_help_handler = print_help subscribe_engine

unfoldable pub discover_help_handler : ShellState → Result
discover_help_handler = print_help discover_engine

-- The help handler that each table of commands names.
unfoldable pub help_handler : Engine → ShellState → Result
unfolding switch_help_handler on_off_help_handler binding_help_handler groups_help_handler
    groups_on_off_help_handler cluster_help_handler cluster_command_on_off_help_handler
    mqtt_sub_command_help_handler subscribe_help_handler discover_help_handler
help_handler switch_engine s = switch_help_handler s
help_handler on_off_engine s = on_off_help_handler s
help_handler binding_engine s = binding_help_handler s
help_handler groups_engine s = groups_help_handler s
help_handler groups_on_off_engine s = groups_on_off_help_handler s
help_handler cluster_engine s = cluster_help_handler s
help_handler cluster_on_off_engine s = cluster_command_on_off_help_handler s
help_handler mqtt_engine s = mqtt_sub_command_help_handler s
help_handler subscribe_engine s = subscribe_help_handler s
help_handler discover_engine s = discover_help_handler s

-- A handler that passes a line on: without a word it calls a help handler, else ExecCommand.
abbrev pub Execute : Type 0
Execute = Table → ShellState → Result

abbrev pub pass_on : (ShellState → Result) → Engine → Execute → List (List ℕ) → ShellState → Result
pass_on helping engine execute [] s = helping s
pass_on helping engine execute (name ∷ args) s = execute (commands_of engine) s

unfoldable pub switch_command_handler : Execute → List (List ℕ) → ShellState → Result
unfolding switch_help_handler
switch_command_handler = pass_on switch_help_handler switch_engine

unfoldable pub on_off_switch_command_handler : Execute → List (List ℕ) → ShellState → Result
unfolding on_off_help_handler
on_off_switch_command_handler = pass_on on_off_help_handler on_off_engine

unfoldable pub binding_switch_command_handler : Execute → List (List ℕ) → ShellState → Result
unfolding binding_help_handler
binding_switch_command_handler = pass_on binding_help_handler binding_engine

unfoldable pub groups_switch_command_handler : Execute → List (List ℕ) → ShellState → Result
unfolding groups_help_handler
groups_switch_command_handler = pass_on groups_help_handler groups_engine

unfoldable pub groups_on_off_switch_command_handler : Execute → List (List ℕ) → ShellState → Result
unfolding groups_on_off_help_handler
groups_on_off_switch_command_handler = pass_on groups_on_off_help_handler groups_on_off_engine

unfoldable pub cluster_command_handler : Execute → List (List ℕ) → ShellState → Result
unfolding cluster_help_handler
cluster_command_handler = pass_on cluster_help_handler cluster_engine

unfoldable pub cluster_command_on_off_handler : Execute → List (List ℕ) → ShellState → Result
unfolding cluster_command_on_off_help_handler
cluster_command_on_off_handler = pass_on cluster_command_on_off_help_handler cluster_on_off_engine

unfoldable pub mqtt_command_handler : Execute → List (List ℕ) → ShellState → Result
unfolding mqtt_help_handler
mqtt_command_handler = pass_on mqtt_help_handler mqtt_engine

unfoldable pub subscribe_command_handler : Execute → List (List ℕ) → ShellState → Result
unfolding subscribe_help_handler
subscribe_command_handler = pass_on subscribe_help_handler subscribe_engine

unfoldable pub unsubscribe_command_handler : Execute → List (List ℕ) → ShellState → Result
unfolding subscribe_help_handler
unsubscribe_command_handler = pass_on subscribe_help_handler subscribe_engine

unfoldable pub discover_handler : Execute → List (List ℕ) → ShellState → Result
unfolding discover_help_handler
discover_handler = pass_on discover_help_handler discover_engine

-- The handler of each engine's line.
unfoldable pub passing_handler : Engine → Execute → List (List ℕ) → ShellState → Result
unfolding switch_command_handler on_off_switch_command_handler binding_switch_command_handler
    groups_switch_command_handler groups_on_off_switch_command_handler cluster_command_handler
    cluster_command_on_off_handler mqtt_command_handler subscribe_command_handler discover_handler
passing_handler switch_engine = switch_command_handler
passing_handler on_off_engine = on_off_switch_command_handler
passing_handler binding_engine = binding_switch_command_handler
passing_handler groups_engine = groups_switch_command_handler
passing_handler groups_on_off_engine = groups_on_off_switch_command_handler
passing_handler cluster_engine = cluster_command_handler
passing_handler cluster_on_off_engine = cluster_command_on_off_handler
passing_handler mqtt_engine = mqtt_command_handler
passing_handler subscribe_engine = subscribe_command_handler
passing_handler discover_engine = discover_handler
