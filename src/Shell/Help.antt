-- ===== src/Shell/Help.antt =====
-- What the shell prints as help.
use mathlib.Core.List.{append-nil}
use matter_hub.Prelude.{◌∙◌, ℕ, ◌≡◌, refl, List, [], ◌∷◌, ◌++◌, codes}
use matter_hub.Chip.{no_error}
use matter_hub.OrderedMap.{text_key}
use matter_hub.Shell.{
  Engine, switch_engine, on_off_engine, groups_engine, groups_on_off_engine, binding_engine,
  cluster_engine, cluster_on_off_engine, mqtt_engine, subscribe_engine, discover_engine, help,
  passes_on, commands_of, root_commands, ShellState, Libraries,
}
use matter_hub.Shell.Passing.{Result, Execute, names_of, passing_handler, help_handler}
use matter_hub.Shell.Handlers.{act, call, execute, run_line}
use matter_hub.Shell.Words.{path, words_to, path-passes_on}
use matter_hub.Shell.Lines.{words_to-act, execute-call}

-- The state after the help of an engine was printed.
abbrev pub listed : Engine → ShellState → Result
listed engine s = (record s { printed = s.printed ++ names_of (commands_of engine) }, no_error)

pub help_lem : (engine : Engine) (s : ShellState) → help_handler engine s ≡ listed engine s
unfolding help_handler
help_lem switch_engine s = refl
help_lem on_off_engine s = refl
help_lem groups_engine s = refl
help_lem groups_on_off_engine s = refl
help_lem binding_engine s = refl
help_lem cluster_engine s = refl
help_lem cluster_on_off_engine s = refl
help_lem mqtt_engine s = refl
help_lem subscribe_engine s = refl
help_lem discover_engine s = refl

pub passing_handler-lists :
    (engine : Engine) (run : Execute) (s : ShellState)
    → passing_handler engine run [] s ≡ listed engine s
unfolding passing_handler
passing_handler-lists switch_engine run s = refl
passing_handler-lists on_off_engine run s = refl
passing_handler-lists groups_engine run s = refl
passing_handler-lists groups_on_off_engine run s = refl
passing_handler-lists binding_engine run s = refl
passing_handler-lists cluster_engine run s = refl
passing_handler-lists cluster_on_off_engine run s = refl
passing_handler-lists mqtt_engine run s = refl
passing_handler-lists subscribe_engine run s = refl
passing_handler-lists discover_engine run s = refl

-- For each engine, the line that leads to it, and that line with the word `help` and any words after
-- it, print the names of exactly the commands that the engine can execute, in the order of their
-- registration. They change nothing else.
pub help_lists :
    (l : Libraries) (engine : Engine) (args : List (List ℕ)) (s : ShellState)
    → (run_line l (path engine) s ≡ listed engine s)
      × (run_line l ((path engine ++ codes "help" ∷ []) ++ args) s ≡ listed engine s)
unfolding run_line call words_to act
help_lists l engine args s = (
  rw (← append-nil (path engine)) (
      execute-call l (path engine) root_commands (passes_on engine) [] s (path-passes_on engine)
      ∙ passing_handler-lists engine (execute l []) s),
  words_to-act l (help engine) args s ∙ help_lem engine s,
)
