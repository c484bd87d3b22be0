-- ===== src/Shell/Lines.antt =====
-- Which handler a line of the shell runs.
use matter_hub.Prelude.{
  ℕ, ◌≡◌, refl, List, [], ◌∷◌, ◌++◌, none, some, Bool-cases, Option-cases, some-injective, inl, inr,
  arith,
}
use matter_hub.OrderedMap.{find, text_eq, text_eq_iff, text_key}
use matter_hub.Shell.{
  Engine, switch_engine, on_off_engine, groups_engine, groups_on_off_engine, binding_engine,
  cluster_engine, cluster_on_off_engine, mqtt_engine, subscribe_engine, discover_engine, Leaf,
  Handler, passes_on, unsubscribes, acts, Table, commands_of, root_commands, EngineLibrary,
  ShellState, Libraries,
}
use matter_hub.Shell.Passing.{Execute, passing_handler, unsubscribe_command_handler}
use matter_hub.Shell.Handlers.{act, call, execute, run_line}
use matter_hub.Shell.Words.{words_to, engine_of, handler_at, words_to-acts}

module _ (e : EngineLibrary) where
  -- The engine's lookup is that of an association list.
  lookup-find : (name : List ℕ) (t : Table) → e.lookup t name ≡ find name t
  unfolding find
  lookup-find name [] = e.lookup_empty name
  lookup-find name ((other, h) ∷ t) = elim (Bool-cases (text_eq other name)) [
    | inl same ↦ rw (same, (text_eq_iff other name).0 same) (e.lookup_first name h t)
    | inr differs ↦
        rw (differs, e.lookup_later name other h t (λ q. ground (arith, text_eq_iff other name)))
          (lookup-find name t)
  ]

-- A handler of a table after the first: the first passes its line on.
handler_at-next :
    (name next : List ℕ) (names : List (List ℕ)) (t : Table) (h : Handler)
    → handler_at (name ∷ next ∷ names) t ≡ some h
    → (first : Handler) × (engine : Engine) × (find name t ≡ some first)
      × (engine_of first ≡ some engine)
      × (handler_at (next ∷ names) (commands_of engine) ≡ some h)
unfolding handler_at
handler_at-next name next names t h e = elim (Option-cases (find name t)) [
  | inl unknown ↦ cc
  | inr (first, found) ↦ elim (Option-cases (engine_of first)) [
    | inl acting ↦ cc
    | inr (engine, passing) ↦ (first, engine, found, passing, cc)
  ]
]

-- A handler that passes on executes its words on the commands of its engine.
pub passing_handler-executes :
    (engine : Engine) (run : Execute) (name : List ℕ) (args : List (List ℕ)) (s : ShellState)
    → passing_handler engine run (name ∷ args) s ≡ run (commands_of engine) s
unfolding passing_handler
passing_handler-executes switch_engine run name args s = refl
passing_handler-executes on_off_engine run name args s = refl
passing_handler-executes groups_engine run name args s = refl
passing_handler-executes groups_on_off_engine run name args s = refl
passing_handler-executes binding_engine run name args s = refl
passing_handler-executes cluster_engine run name args s = refl
passing_handler-executes cluster_on_off_engine run name args s = refl
passing_handler-executes mqtt_engine run name args s = refl
passing_handler-executes subscribe_engine run name args s = refl
passing_handler-executes discover_engine run name args s = refl

call-execute :
    (l : Libraries) (run : Execute) (h : Handler) (engine : Engine) (name : List ℕ)
    (args : List (List ℕ)) (s : ShellState)
    → engine_of h ≡ some engine
    → call l run h (name ∷ args) s ≡ run (commands_of engine) s
unfolding call engine_of unsubscribe_command_handler
call-execute l run (passes_on e) engine name args s same =
    rw (← some-injective e engine same) (passing_handler-executes e run name args s)
call-execute l run unsubscribes engine name args s same =
    rw (← some-injective subscribe_engine engine same) refl
call-execute l run (acts leaf) engine name args s same = cc

module _ (l : Libraries) where
  pub execute-next :
      (t : Table) (name : List ℕ) (args : List (List ℕ)) (s : ShellState)
      → execute l (name ∷ args) t s ≡ elim (l.engine.lookup t name) [
        | none ↦ (s, l.engine.not_found)
        | some h ↦ call l (execute l args) h args s
      ]
  unfolding execute
  execute-next t name args s = refl

  -- A word that a table knows goes to its handler.
  known_word :
      (t : Table) (name : List ℕ) (args : List (List ℕ)) (h : Handler) (s : ShellState)
      → find name t ≡ some h
      → execute l (name ∷ args) t s ≡ call l (execute l args) h args s
  known_word t name args h s found =
      rw (execute-next t name args s, lookup-find l.engine name t, found) refl

  pub execute-call :
      (names : List (List ℕ)) (t : Table) (h : Handler) (args : List (List ℕ)) (s : ShellState)
      → handler_at names t ≡ some h
      → execute l (names ++ args) t s ≡ call l (execute l args) h args s
  unfolding handler_at
  execute-call [] t h args s e = cc
  execute-call (name ∷ []) t h args s e = known_word t name args h s e
  execute-call (name ∷ next ∷ names) t h args s e =
      let (first, engine, found, passing, rest) = handler_at-next name next names t h e in
      rw
        (
          known_word t name ((next ∷ names) ++ args) first s found,
          call-execute l (execute l ((next ∷ names) ++ args)) first engine next (names ++ args) s
              passing,
        )
        (execute-call (next ∷ names) (commands_of engine) h args s rest)

  -- The line of the words that lead to a command through the tables, one for each table and one for
  -- the command, runs that command's handler on the words that follow, from every state and whatever
  -- those words are. The commands are the help of each table, and those that act.
  pub words_to-act :
      (leaf : Leaf) (args : List (List ℕ)) (s : ShellState)
      → run_line l (words_to leaf ++ args) s ≡ act l leaf args s
  unfolding run_line call
  words_to-act leaf args s =
      execute-call (words_to leaf) root_commands (acts leaf) args s (words_to-acts leaf)
