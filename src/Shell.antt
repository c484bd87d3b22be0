-- ===== src/Shell.antt =====
-- The shell: the tables of commands that the Register functions of src/main/BindingHandler.cpp,
-- ClusterCommands.cpp, MQTTCommands.cpp, SubscribeCommands.cpp and DiscoverCommands.cpp fill, and what
-- their handlers keep.
pub mod Passing
pub mod Handlers
pub mod Words
pub mod Lines
pub mod Help
pub mod Bound
pub mod Described
pub mod Delivered
pub mod Tests
use matter_hub.Prelude.{ℕ, ◌≡◌, ◌≢◌, List, [], ◌∷◌, ◌++◌, codes, Option, none, some}
use matter_hub.Chip.{ChipError, no_error}
use matter_hub.Interaction.{ConnectionLibrary, OnOffCommand, off, on, toggle}
use matter_hub.Mqtt.{MqttCommandData, mqtt_sub_handler, mqtt_unsub_handler, mqtt_pub_handler}
use matter_hub.Subscriptions.{Subscriptions, ShellLibrary, subscribe_subscribe_command_handler}
use matter_hub.Clusters.{Clusters, ClusterLibrary, cluster_command_on_off_on_off_toggle_handler}
use matter_hub.Discovery.Commands.{Discovery, DescribeLibrary, discover_describe_handler}
use matter_hub.Bindings.{Bindings, BindingLibrary}
use matter_hub.Bindings.Shell.{
  on_off_toggle_switch_command_handler, group_on_off_toggle_switch_command_handler,
  binding_group_bind_command_handler, binding_unicast_bind_command_handler,
}

-- The engines: each holds the commands of one Register function's table.
pub data Engine : Type 0 where
  switch_engine on_off_engine groups_engine groups_on_off_engine binding_engine : Engine
  cluster_engine cluster_on_off_engine mqtt_engine subscribe_engine discover_engine : Engine

-- The handlers that act. `help` is the help handler of an engine.
pub data Leaf : Type 0 where
  help : Engine → Leaf
  bind_group bind_unicast sub unsub pub_message subscribe describe : Leaf
  switch group_switch cluster_switch : OnOffCommand → Leaf

-- The function pointers of the tables: those that pass a line on to their engine, as
-- SwitchCommandHandler does, UnsubscribeCommandHandler, and those that act.
pub data Handler : Type 0 where
  passes_on : Engine → Handler
  unsubscribes : Handler
  acts : Leaf → Handler

abbrev pub Table : Type 0
Table = List (List ℕ × Handler)

-- RegisterSwitchCommands: the tables of the commands under `switch`.
pub switch_sub_commands : Table
switch_sub_commands =
    (codes "help", acts (help switch_engine))
    ∷ (codes "onoff", passes_on on_off_engine)
    ∷ (codes "groups", passes_on groups_engine)
    ∷ (codes "binding", passes_on binding_engine)
    ∷ []

pub switch_on_off_sub_commands : Table
switch_on_off_sub_commands =
    (codes "help", acts (help on_off_engine))
    ∷ (codes "on", acts (switch on))
    ∷ (codes "off", acts (switch off))
    ∷ (codes "toggle", acts (switch toggle))
    ∷ []

pub switch_groups_sub_commands : Table
switch_groups_sub_commands =
    (codes "help", acts (help groups_engine)) ∷ (codes "onoff", passes_on groups_on_off_engine) ∷ []

pub switch_groups_on_off_sub_commands : Table
switch_groups_on_off_sub_commands =
    (codes "help", acts (help groups_on_off_engine))
    ∷ (codes "on", acts (group_switch on))
    ∷ (codes "off", acts (group_switch off))
    ∷ (codes "toggle", acts (group_switch toggle))
    ∷ []

pub switch_binding_sub_commands : Table
switch_binding_sub_commands =
    (codes "help", acts (help binding_engine))
    ∷ (codes "group", acts bind_group)
    ∷ (codes "unicast", acts bind_unicast)
    ∷ []

-- RegisterClusterCommands
pub cluster_sub_commands : Table
cluster_sub_commands =
    (codes "help", acts (help cluster_engine))
    ∷ (codes "onoff", passes_on cluster_on_off_engine)
    ∷ []

pub cluster_command_on_off_sub_commands : Table
cluster_command_on_off_sub_commands =
    (codes "help", acts (help cluster_on_off_engine))
    ∷ (codes "on", acts (cluster_switch on))
    ∷ (codes "off", acts (cluster_switch off))
    ∷ (codes "toggle", acts (cluster_switch toggle))
    ∷ []

-- RegisterMQTTCommands
pub mqtt_sub_commands : Table
mqtt_sub_commands =
    (codes "help", acts (help mqtt_engine))
    ∷ (codes "sub", acts sub)
    ∷ (codes "unsub", acts unsub)
    ∷ (codes "pub", acts pub_message)
    ∷ []

-- RegisterSubscribeCommands
pub subscribe_sub_commands : Table
subscribe_sub_commands =
    (codes "help", acts (help subscribe_engine))
    ∷ (codes "subscribe", acts subscribe)
    ∷ (codes "unsubscribe", unsubscribes)
    ∷ []

-- RegisterDiscoverCommands
pub discover_sub_commands : Table
discover_sub_commands =
    (codes "help", acts (help discover_engine)) ∷ (codes "describe", acts describe) ∷ []

-- The commands that each engine holds once the Register functions have run.
pub commands_of : Engine → Table
unfolding switch_sub_commands switch_on_off_sub_commands switch_groups_sub_commands
    switch_groups_on_off_sub_commands switch_binding_sub_commands cluster_sub_commands
    cluster_command_on_off_sub_commands mqtt_sub_commands subscribe_sub_commands
    discover_sub_commands
commands_of switch_engine = switch_sub_commands
commands_of on_off_engine = switch_on_off_sub_commands
commands_of groups_engine = switch_groups_sub_commands
commands_of groups_on_off_engine = switch_groups_on_off_sub_commands
commands_of binding_engine = switch_binding_sub_commands
commands_of cluster_engine = cluster_sub_commands
commands_of cluster_on_off_engine = cluster_command_on_off_sub_commands
commands_of mqtt_engine = mqtt_sub_commands
commands_of subscribe_engine = subscribe_sub_commands
commands_of discover_engine = discover_sub_commands

-- The commands of Engine::Root() that the Register functions add, in the order of their calls.
pub root_commands : Table
root_commands =
    (codes "cluster", passes_on cluster_engine)
    ∷ (codes "subscribe", passes_on subscribe_engine)
    ∷ (codes "mqtt", passes_on mqtt_engine)
    ∷ (codes "discover", passes_on discover_engine)
    ∷ (codes "switch", passes_on switch_engine)
    ∷ []

-- Engine::ExecCommand of the SDK looks a name up in the registered commands: the first of that name,
-- and an error if there is none.
pub record EngineLibrary : Type 0 where
  pub lookup : Table → List ℕ → Option Handler
  pub not_found : ChipError
  pub lookup_empty : (name : List ℕ) → lookup [] name ≡ none
  pub lookup_first :
      (name : List ℕ) (h : Handler) (t : Table) → lookup ((name, h) ∷ t) name ≡ some h
  pub lookup_later :
      (name other : List ℕ) (h : Handler) (t : Table)
      → other ≢ name
      → lookup ((other, h) ∷ t) name ≡ lookup t name

-- What the handlers keep; the MQTT commands are scheduled for MQTTCommandWorkerFunction, and
-- `printed` has the commands whose help was printed.
pub record ShellState : Type 0 where
  pub bindings : Bindings
  pub clusters : Clusters
  pub subscriptions : Subscriptions
  pub discovery : Discovery
  pub mqtt_queue : List MqttCommandData
  pub printed : List (List ℕ)

pub record Libraries : Type 0 where
  pub engine : EngineLibrary
  pub binding : BindingLibrary
  pub connection : ConnectionLibrary
  pub cluster : ClusterLibrary
  pub subscribing : ShellLibrary
  pub describing : DescribeLibrary
