-- ===== src/Shell/Words.antt =====
-- The words that lead from the root table of the shell to each handler.
use matter_hub.Prelude.{ℕ, ◌≡◌, refl, List, [], ◌∷◌, ◌++◌, codes, Option, none, some}
use matter_hub.Interaction.{OnOffCommand, off, on, toggle}
use matter_hub.OrderedMap.{find, text_eq, text_key}
use matter_hub.Shell.{
  Engine, switch_engine, on_off_engine, groups_engine, groups_on_off_engine, binding_engine,
  cluster_engine, cluster_on_off_engine, mqtt_engine, subscribe_engine, discover_engine, Leaf, help,
  bind_group, bind_unicast, sub, unsub, pub_message, subscribe, describe, switch, group_switch,
  cluster_switch, Handler, passes_on, unsubscribes, acts, Table, commands_of, root_commands,
}

-- The word for a command in the tables of the on-off commands.
unfoldable pub word : OnOffCommand → List ℕ
word off = codes "off"
word on = codes "on"
word toggle = codes "toggle"

-- The words that lead to an engine.
unfoldable pub path : Engine → List (List ℕ)
path switch_engine = codes "switch" ∷ []
path on_off_engine = codes "switch" ∷ codes "onoff" ∷ []
path groups_engine = codes "switch" ∷ codes "groups" ∷ []
path groups_on_off_engine = codes "switch" ∷ codes "groups" ∷ codes "onoff" ∷ []
path binding_engine = codes "switch" ∷ codes "binding" ∷ []
path cluster_engine = codes "cluster" ∷ []
path cluster_on_off_engine = codes "cluster" ∷ codes "onoff" ∷ []
path mqtt_engine = codes "mqtt" ∷ []
path subscribe_engine = codes "subscribe" ∷ []
path discover_engine = codes "discover" ∷ []

-- The words that lead to a handler through the tables. The help texts of some tables give others.
unfoldable pub words_to : Leaf → List (List ℕ)
unfolding word path
words_to (help engine) = path engine ++ codes "help" ∷ []
words_to bind_group = path binding_engine ++ codes "group" ∷ []
words_to bind_unicast = path binding_engine ++ codes "unicast" ∷ []
words_to sub = path mqtt_engine ++ codes "sub" ∷ []
words_to unsub = path mqtt_engine ++ codes "unsub" ∷ []
words_to pub_message = path mqtt_engine ++ codes "pub" ∷ []
words_to subscribe = path subscribe_engine ++ codes "subscribe" ∷ []
words_to describe = path discover_engine ++ codes "describe" ∷ []
words_to (switch command) = path on_off_engine ++ word command ∷ []
words_to (group_switch command) = path groups_on_off_engine ++ word command ∷ []
words_to (cluster_switch command) = path cluster_on_off_engine ++ word command ∷ []

-- The engine that a handler passes its words on to.
unfoldable pub engine_of : Handler → Option Engine
engine_of (passes_on engine) = some engine
engine_of unsubscribes = some subscribe_engine
engine_of (acts leaf) = none

-- The handler that the words of a line lead to, from a table.
unfoldable pub handler_at : List (List ℕ) → Table → Option Handler
unfolding find engine_of
handler_at [] t = none
handler_at (name ∷ []) t = find name t
handler_at (name ∷ next ∷ names) t = elim (find name t) [
  | none ↦ none
  | some h ↦ elim (engine_of h) [
    | none ↦ none
    | some engine ↦ handler_at (next ∷ names) (commands_of engine)
  ]
]

pub words_to-acts : (leaf : Leaf) → handler_at (words_to leaf) root_commands ≡ some (acts leaf)
unfolding handler_at words_to path find text_eq commands_of root_commands word
words_to-acts (help switch_engine) = refl
words_to-acts (help on_off_engine) = refl
words_to-acts (help groups_engine) = refl
words_to-acts (help groups_on_off_engine) = refl
words_to-acts (help binding_engine) = refl
words_to-acts (help cluster_engine) = refl
words_to-acts (help cluster_on_off_engine) = refl
words_to-acts (help mqtt_engine) = refl
words_to-acts (help subscribe_engine) = refl
words_to-acts (help discover_engine) = refl
words_to-acts bind_group = refl
words_to-acts bind_unicast = refl
words_to-acts sub = refl
words_to-acts unsub = refl
words_to-acts pub_message = refl
words_to-acts subscribe = refl
words_to-acts describe = refl
words_to-acts (switch off) = refl
words_to-acts (switch on) = refl
words_to-acts (switch toggle) = refl
words_to-acts (group_switch off) = refl
words_to-acts (group_switch on) = refl
words_to-acts (group_switch toggle) = refl
words_to-acts (cluster_switch off) = refl
words_to-acts (cluster_switch on) = refl
words_to-acts (cluster_switch toggle) = refl

pub path-passes_on :
    (engine : Engine) → handler_at (path engine) root_commands ≡ some (passes_on engine)
unfolding handler_at path find text_eq commands_of root_commands
path-passes_on switch_engine = refl
path-passes_on on_off_engine = refl
path-passes_on groups_engine = refl
path-passes_on groups_on_off_engine = refl
path-passes_on binding_engine = refl
path-passes_on cluster_engine = refl
path-passes_on cluster_on_off_engine = refl
path-passes_on mqtt_engine = refl
path-passes_on subscribe_engine = refl
path-passes_on discover_engine = refl
