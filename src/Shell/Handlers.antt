-- ===== src/Shell/Handlers.antt =====
-- The handlers of the shell that act, and the run of a line from the shell's root.
use matter_hub.Prelude.{ℕ, List, [], ◌∷◌, ◌++◌, length, Bool, true, false, Option, none, some, ◌==◌}
use matter_hub.Chip.{ChipError, no_error}
use matter_hub.Mqtt.{MqttCommandData, mqtt_sub_handler, mqtt_unsub_handler, mqtt_pub_handler}
use matter_hub.Subscriptions.{subscribe_subscribe_command_handler}
use matter_hub.Clusters.{cluster_command_on_off_on_off_toggle_handler}
use matter_hub.Discovery.Commands.{discover_describe_handler}
use matter_hub.Bindings.{Bindings}
use matter_hub.Bindings.Shell.{
  on_off_toggle_switch_command_handler, group_on_off_toggle_switch_command_handler,
  binding_group_bind_command_handler, binding_unicast_bind_command_handler,
}
use matter_hub.Shell.{
  Leaf, help, bind_group, bind_unicast, sub, unsub, pub_message, subscribe, describe, switch,
  group_switch, cluster_switch, Handler, passes_on, unsubscribes, acts, root_commands, ShellState,
  Libraries,
}
use matter_hub.Shell.Passing.{
  Result, Execute, help_handler, mqtt_sub_command_help_handler, subscribe_help_handler,
  discover_help_handler, cluster_command_on_off_help_handler, passing_handler,
  unsubscribe_command_handler,
}

-- A scheduled MQTT command, or the help of those commands for `none`.
unfoldable pub schedule_mqtt : Option MqttCommandData → ShellState → Result
unfolding mqtt_sub_command_help_handler
schedule_mqtt none s = mqtt_sub_command_help_handler s
schedule_mqtt (some c) s = (record s { mqtt_queue = s.mqtt_queue ++ c ∷ [] }, no_error)

abbrev with_bindings : Bindings × ChipError → ShellState → Result
with_bindings (b, e) s = (record s { bindings = b }, e)

-- With a number of words other than the one that a handler wants, it prints help last.
abbrev pub help_unless : Bool → (ShellState → Result) → ShellState → Result
help_unless true helping s = (s, no_error)
help_unless false helping s = helping s

module _ (l : Libraries) where
  unfoldable pub act : Leaf → List (List ℕ) → ShellState → Result
  unfolding help_handler schedule_mqtt subscribe_help_handler discover_help_handler
      cluster_command_on_off_help_handler
  act (help engine) args s = help_handler engine s
  act bind_group args s =
      with_bindings (binding_group_bind_command_handler l.binding l.connection args s.bindings) s
  act bind_unicast args s =
      with_bindings (binding_unicast_bind_command_handler l.binding l.connection args s.bindings) s
  act sub args s = schedule_mqtt (mqtt_sub_handler args) s
  act unsub args s = schedule_mqtt (mqtt_unsub_handler args) s
  act pub_message args s = schedule_mqtt (mqtt_pub_handler args) s
  act subscribe args s = help_unless (length args == 7) subscribe_help_handler (record s {
    subscriptions = subscribe_subscribe_command_handler l.subscribing args s.subscriptions;
  })
  act describe args s =
      help_unless (length args == 2) discover_help_handler
        (record s { discovery = discover_describe_handler l.describing args s.discovery })
  act (switch command) args s = (
    record s {
      bindings = on_off_toggle_switch_command_handler l.binding l.connection command s.bindings;
    },
    no_error,
  )
  act (group_switch command) args s = (
    record s {
      bindings =
          group_on_off_toggle_switch_command_handler l.binding l.connection command s.bindings;
    },
    no_error,
  )
  act (cluster_switch command) args s =
      help_unless (length args == 3) cluster_command_on_off_help_handler (record s {
        clusters =
            cluster_command_on_off_on_off_toggle_handler l.cluster l.connection command args
              s.clusters;
      })

  -- The call of a handler with the words that follow its name.
  unfoldable pub call : Execute → Handler → List (List ℕ) → ShellState → Result
  unfolding passing_handler unsubscribe_command_handler
  call execute (passes_on engine) args s = passing_handler engine execute args s
  call execute unsubscribes args s = unsubscribe_command_handler execute args s
  call execute (acts leaf) args s = act leaf args s

  -- ExecCommand on the words of a line; the shell executes no line without a word.
  unfoldable pub execute : List (List ℕ) → Execute
  execute [] t s = (s, no_error)
  execute (name ∷ args) t s = elim (l.engine.lookup t name) [
    | none ↦ (s, l.engine.not_found)
    | some h ↦ call (execute args) h args s
  ]

  -- A line of words at the shell's root.
  unfoldable pub run_line : List (List ℕ) → ShellState → Result
  unfolding root_commands
  run_line line s = execute line root_commands s
